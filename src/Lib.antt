-- ===== src/Lib.antt =====
-- Verification of the core of mbb, a daemon that accounts network traffic to consumers.
--
-- The daemon knows networks, units of consumers, gateways and their links, users and groups. What
-- belongs to whom changes with time, so its core is a set of structures over ordered keys: a
-- slicer cuts all addresses, or all times, into slices with data; a gateway has a queue of links
-- with intervals of time; and the objects of each kind are found by several keys. The requests,
-- which come as XML, read and change these structures.
--
-- Parts and files:
--   Inet: mbbd/inet.c and inet.h, dotted quads and networks, `read_byte` to `inettoa`. A text is a
--     list of bytes, and a pointer into it is the rest of the list. Addresses are numbers below
--     2 ^ 32, with the wrap written out.
--   Range: mbbd/range.c and range.h, `inet2range`, `range_cmp` and the tests on ranges.
--   Times: mbbd/mbbtime.c and mbbtime.h, bounds of intervals, where 0 leaves a side open.
--   Slice: the slices and key operations of mbbd/slicer.c and slicer.h, with the two kinds of keys
--     of mbbd/inetslicer.c and timeslicer.c in Slice.Keys. Slice.Laws states what the slicer needs
--     of the keys as the record KeyLaws, and Slice.Keys.Instances fills it for both kinds.
--   Slicer: the queue of entries of mbbd/slicer.c, `change_data` to `slicer_delete`; Slicer.Query
--     has the searches and visits, Slicer.Glue the merging of entries without data.
--   Map: mbbd/map.c and map.h, the maps from two slices to a pointer: a slicer whose data are
--     queues of slices of a second kind of keys. Map.Addition and Map.Deletion look at it as a
--     function of two keys, and Map.Iter has the iterators.
--   AddressMap: mbbd/mbbinetmap.c, the table made of the map of all units for fast lookup
--     (`umap_init`, `map_add_map`, `mbb_umap_from_unit`), the binary search in it and
--     `mbb_umap_find`. AddressMap.Bsearch is about the search in the table, AddressMap.Chain about
--     the data of one entry, and AddressMap.Lookup is about lookups in the map and the table.
--   Units: mbbd/mbbunit.c and mbbinetpool.c: units and their networks; Units.Times has the times
--     that they inherit, and Units.Build the map of a unit, which uses Separator and Map.
--   Task: mbbd/mbbtask.c, a background task: the moves of its worker (Work), of a thread that runs
--     a command on it (Act), and of all of them and the thread that made it in any interleaving
--     (Step).
--   Variant: lib/variant.c, the values in a message. XmlTag: lib/xmltag.c and include/xmltag.h, the
--     tree of a message. Its children are chains of one name; XmlTag.Path walks them, XmlTag.Values
--     takes the arguments of a request, XmlTag.Sort sorts and XmlTag.Print prints.
--   Gateway: the links of mbbd/mbbgateway.c.
--   Separator: mbbd/separator.c, and the reordering of mbbd/mbbunit.c.
--   MsgQueue: mbbd/mbbmsgqueue.c, the messages that wait to be written.
--   Registry: mbbd/datalink.c, tables of objects by their keys.
--   Objects: mbbd/mbbgroup.c, mbbuser.c, mbbconsumer.c, mbboperator.c, mbbgwlink.c and the registry
--     of mbbgateway.c, each on the functions of Registry that they share.
--   Sessions: mbbd/mbbsession.c, the table of sessions and their variables.
--   Access: who may call what. mbbd/mbbcap.h, mbbfunc.c and the use of modules in mbbmodule.c;
--     Access.Auth is mbbauth.c, and Access.XmlClient is mbbthreadxml.c, which authenticates a client
--     and calls the function that a request names. Access.Reach follows a client over its
--     requests, and Access.Registration has the functions of a module that comes and goes.
--   Messages: mbbd/mbbxmlmsg.c, the answers to requests.
--   Conv: lib/strconv.c and mbbd/varconv.c, conversions of texts; Conv.Numbers is about numbers.
--   Query: mbbd/query.c, the texts of SQL queries: arguments (Query), whole queries
--     (Query.Builders) and the directives of a format (Query.Directives).
--   Http: mbbd/http.c, requests, responses, headers and the basic authorisation.
--   Vars: mbbd/mbbvar.c, the variables of the daemon and the tables of cached values. Vars.Arguments
--     takes the arguments of a request (mbbd/mbbxtv.c); Vars.Requests and Vars.CacheRequests are the
--     requests, Vars.Pointers and Vars.Secrecy are about what they tell, and Vars.Cache about saving
--     and loading.
--   Prelude: names, tests, signed integers, bits and lists that the parts share.
--
-- How the program is modelled. A pointer to an object is an address, a number; where a function
-- reads objects that it is given by pointer, it takes the heap, a function from addresses to
-- objects. A queue of GLib is a list, a hash table an association list with one row for a key, and
-- a function that changes its argument returns the new value. The balanced tree of GLib, which the
-- slicer keeps beside its queue, is a parameter: Slicer.Tree states what a search in it promises
-- (SearchLaws) and leaves open which of several hits it returns. The data of a slicer's entries
-- and its operations are parameters (DataOps) too. An assertion that fails is the value none.
-- Functions of GLib on texts (`g_strcmp0`, `g_strsplit`, `g_markup_escape_text` and those on UTF-8)
-- are parameters, and so are base64, strptime, the clock, and printf's formatting. The sorting of
-- children has the length of the chain as fuel for its depth. The loops over the bits of a
-- capability mask have 32 rounds of fuel, for masks of 32 bits. The binary search has one round for
-- each entry of the table and one more; each round that goes on narrows the window by one entry at
-- least. The loops over the values of a query have a round for each argument, or for each letter of
-- the format, and one more. All other loops are structural.
--
-- How the parts meet. `mbb_unit_map_rebuild` reads the units, consumers and pool entries and fills a
-- Map through `map_add` and `map_del`; AddressMap reads a Map with the iterators and answers lookups
-- by address and time. Access reads the tag of a message with XmlTag, finds the user in the registry
-- of Objects, and pushes answers that Messages or XmlTag.Print make.
--
-- Not modelled: creation and freeing of objects, reference counts, and locks outside of tasks; the
-- handlers of the nodes of a map, and the lists of nodes that units keep of the map of all units;
-- the functions of units that change that map; the table of tasks, and
-- tasks whose thread cannot be made; the settings of the
-- server; the requests of the managers; the server and its sockets, the database, the log,
-- the loading of modules and the modules themselves, the rest of the shared libraries, and the shell.
pub mod Prelude
pub mod Inet
pub mod Range
pub mod Times
pub mod Slice
pub mod Slicer
pub mod Gateway
pub mod Registry
pub mod Objects
pub mod Separator
pub mod MsgQueue
pub mod Map
pub mod Task
pub mod Variant
pub mod XmlTag
pub mod Units
pub mod AddressMap
pub mod Query
pub mod Conv
pub mod Messages
pub mod Access
pub mod Http
pub mod Sessions
pub mod Vars

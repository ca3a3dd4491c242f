-- ===== src/Vars/Tests.antt =====
-- A memory with a secret at 1, the variables that point to it, and one of the sessions.
use mbb_devel.Prelude.{
  ℕ, zero, suc, ◌≡◌, ◌≢◌, refl, sym, ap, arith, Bool, true, false, Option, none, some, List, [],
  ◌∷◌,
}
use mbb_devel.Prelude.Tests.{◌==◌, if◌then◌else◌}
use mbb_devel.Prelude.Int.{pos}
use mbb_devel.Prelude.Text.{Bytes, codes}
use mbb_devel.Variant.{Variant}
use mbb_devel.XmlTag.{XmlTag, xml_tag_new}
use mbb_devel.Units.{ids_lookup}
use mbb_devel.Sessions.{new_data, session_lookup_var, SessionVar, Session, mbb_session_xml}
use mbb_devel.Vars.{
  session_var, VarDef, Var, VarState, base_var, mbb_var_can_read, mbb_var_cache_save,
  mbb_var_cache_load, mbb_var_read, mbb_var_cache_get, has_prefix,
}
use mbb_devel.Vars.Requests.{show_vars, var_show}
use mbb_devel.Vars.Pointers.{IsHidden, IsPointed, with_memory}
use mbb_devel.Vars.Secrecy.{IsAlike, show_vars-var_show}
use mbb_devel.Vars.Cache.{mbb_var_cache_load-mbb_var_cache_save}
use mbb_devel.Access.{mbb_cap_check, mbb_cap_is_dummy, mbb_cap_all_dummy}

abbrev Memory : Type 0
Memory = ℕ → Bytes

abbrev read : ℕ → Memory → Option Bytes
read p m = some (m p)

abbrev write : Bytes → ℕ → Memory → Memory × Bool
write arg p m = (λ q. if q == p then arg else m q, true)

abbrev var_def : ℕ → VarDef Memory
var_def mask = record { op_read = some read; op_write = some write; cap_read = mask; cap_write = 1 }

-- The variables `open` and `key`, one of the sessions, and others like `key`.
abbrev var_at : ℕ → Var Memory
var_at zero = record {
  kind = base_var 0;
  def = var_def mbb_cap_all_dummy;
  mod_ptr = 0;
  name = codes "open";
}
var_at (suc zero) = record { kind = base_var 1; def = var_def 2; mod_ptr = 0; name = codes "key" }
var_at (suc (suc zero)) = record {
  kind = session_var;
  def = var_def mbb_cap_all_dummy;
  mod_ptr = 0;
  name = codes "@.open";
}
var_at (suc (suc (suc x))) = record {
  kind = base_var 1;
  def = var_def 2;
  mod_ptr = 0;
  name = codes "key";
}

abbrev old_memory : Memory
old_memory p = if p == 1 then codes "b" else codes "a"

abbrev new_memory : Memory
new_memory p = if p == 1 then codes "c" else codes "a"

abbrev no_session : ℕ → Session
no_session x = record {
  user = 0;
  peer = [];
  port = 0;
  type = mbb_session_xml;
  start = pos 0;
  mtime = pos 0;
  killed = false;
  kill_msg = none;
  vars = [];
  cached_vars = none;
}

abbrev state : VarState Memory
state = record {
  heap = var_at;
  ht = some ((codes "open", 0) ∷ (codes "key", 1) ∷ (codes "@.open", 2) ∷ []);
  cache_global = none;
  sessions = record { session_id = 0; ht = none; heap = no_session; var_queue = [] };
  modules = λ x. record { run = true; use_count = 0 };
  memory = old_memory;
}

-- The data of a session variable is a copy of the text at 0, which is put at 7.
abbrev privs : ℕ → SessionVar Memory
privs x = record { op_new = some (λ p m. (λ q. if q == 7 then m 0 else m q, 7)); data_ptr = 0 }

abbrev format : Bytes → List Variant → Bytes
format fmt args = fmt

abbrev split : Bytes → List Bytes
split s = s ∷ []

abbrev request : XmlTag
request = xml_tag_new (codes "request") [] none

no_right : mbb_cap_check 0 2 ≡ false
unfolding mbb_cap_check mbb_cap_is_dummy
no_right = refl

-- Two memories with the same texts at 0 and 7, and the pointers that the variables may have.
abbrev SameOpen : Memory → Memory → Type 0
SameOpen m n = (m 0 ≡ n 0) × (m 7 ≡ n 7)

abbrev May : ℕ → ℕ → Type 0
May zero p = p ≡ 0
May (suc zero) p = p ≡ 1
May (suc (suc zero)) p = p ≡ 7
May (suc (suc (suc x))) p = p ≡ 1

hidden : IsHidden SameOpen May privs 0 state
unfolding mbb_var_can_read new_data
hidden zero c m n (r, r') = (λ p q. rw q (ap some (sym r)), refl, (r, r))
hidden (suc zero) c m n r = absurd (ground (arith, no_right, c))
hidden (suc (suc zero)) c m n (r, r') = (λ p q. rw q (ap some (sym r')), refl, (r, r))
hidden (suc (suc (suc x))) c m n r = absurd (ground (arith, no_right, c))

pointed : IsPointed SameOpen May privs (some 4) 0 state
unfolding mbb_var_can_read new_data session_lookup_var ids_lookup
pointed zero c = refl
pointed (suc zero) c = refl
pointed (suc (suc zero)) c = (λ m. refl, λ e. cc, λ k p e. cc)
pointed (suc (suc (suc x))) c = refl

-- A user without capabilities, in the session 4, is told nothing about the variable `key`.
show_vars-var_show_example :
    IsAlike SameOpen
      (show_vars format split privs (some 4) (λ s. none) 0 request state)
      (show_vars format split privs (some 4) (λ s. none) 0 request (with_memory new_memory state))
    × IsAlike SameOpen
        (var_show format split privs (some 4) 0 request state)
        (var_show format split privs (some 4) 0 request (with_memory new_memory state))
show_vars-var_show_example =
    show_vars-var_show SameOpen May format split privs (some 4) 0 (λ s. none) request state
      new_memory hidden pointed (refl, refl)

mbb_var_cache_load-mbb_var_cache_save_example :
    (saved loaded : VarState Memory) × (mbb_var_cache_save privs none 1 state ≡ some saved)
    × (mbb_var_cache_load privs none 1 (with_memory new_memory saved) ≡ some loaded)
    × (mbb_var_read privs none 1 loaded ≡ some (loaded, some (codes "b")))
    × ((other : Bytes)
        → codes "key" ≢ other
        → mbb_var_cache_get privs none other loaded ≡ mbb_var_cache_get privs none other state)
unfolding has_prefix
mbb_var_cache_load-mbb_var_cache_save_example =
    mbb_var_cache_load-mbb_var_cache_save privs none 1 1 read write state (codes "b") new_memory
      (refl, refl, refl, refl) refl (λ n. refl)

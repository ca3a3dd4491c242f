-- ===== src/Vars/Secrecy.antt =====
-- What the requests that show variables tell of the memory, mbbd/mbbvar.c.
use mbb_devel.Prelude.{ℕ, ◌≡◌, refl, arith, inl, inr, Bool, Option, none, some, List, [], ◌∷◌, ◌&&◌}
use mbb_devel.Prelude.Tests.{Bool-cases, Option-cases}
use mbb_devel.Prelude.Text.{Bytes}
use mbb_devel.Variant.{Variant}
use mbb_devel.XmlTag.{XmlTag, xml_tag_add_child}
use mbb_devel.Messages.{mbb_xml_msg_ok}
use mbb_devel.Sessions.{SessionVar}
use mbb_devel.Vars.{VarState, Texts, mbb_var_is_alive, mbb_var_can_read, mbb_var_get_by_name}
use mbb_devel.Vars.Arguments.{
  VarResult, XtvCall, refused, taken, xtv_var_name, xtv_regex_value, stored_text, stored_regex,
  mbb_xtv_call_z, with_name,
}
use mbb_devel.Vars.Requests.{
  matches, value_tag, show_rows, show_table, show_vars, with_regex, show_named, var_show,
}
use mbb_devel.Vars.Pointers.{with_memory, IsHidden, IsPointed, read_alike}

module _ {M : Type 0} (Related : M → M → Type 0) where
  -- The same answer, and the same state up to related memories.
  abbrev pub IsAlike : VarResult M → VarResult M → Type 0
  IsAlike none none = Unit
  IsAlike none (some r) = ⊥
  IsAlike (some r) none = ⊥
  IsAlike (some (w, ans)) (some (w', ans')) =
      (m : M) × Related w.memory m × (w' ≡ with_memory m w) × (ans' ≡ ans)

  module _ (May : ℕ → ℕ → Type 0) (vprintf : Bytes → List Variant → Bytes)
      (strsplit : Bytes → List Bytes) (privs : ℕ → SessionVar M) (current : Option ℕ)
      (mask : ℕ) where
    rows-IsAlike :
        (re : Option (Bytes → Bool)) (t : Texts ℕ) (w : VarState M) (n : M) (ans : XmlTag)
        → IsHidden Related May privs mask w
        → IsPointed Related May privs current mask w
        → Related w.memory n
        → IsAlike
            (show_rows vprintf strsplit privs current mask re t w ans)
            (show_rows vprintf strsplit privs current mask re t (with_memory n w) ans)
    unfolding show_rows mbb_var_is_alive
    rows-IsAlike re [] w n ans h pt r = (n, r, refl, refl)
    rows-IsAlike re (v ∷ t) w n ans h pt r =
        elim (Bool-cases (
          mbb_var_is_alive w (w.heap v.1)
          && matches re (w.heap v.1).name
          && mbb_var_can_read (w.heap v.1) mask)) [
            | inr shut ↦ rw (shut) (rows-IsAlike re t w n ans h pt r)
            | inl listed ↦
                let (s, m', n', value, r', pt', a, b) =
                  read_alike Related May privs current mask v.1 w n h pt r
                    (ground (arith, listed)) in
                rw (listed, a, b)
                  (rows-IsAlike re t (record w { sessions = s; memory = m' }) n'
                    (xml_tag_add_child ans (value_tag (w.heap v.1).name value)) h pt' r')
          ]

    table-IsAlike :
        (re : Option (Bytes → Bool)) (o : Option (Texts ℕ)) (w : VarState M) (n : M)
        → IsHidden Related May privs mask w
        → IsPointed Related May privs current mask w
        → Related w.memory n
        → IsAlike
            (show_table vprintf strsplit privs current mask re o w)
            (show_table vprintf strsplit privs current mask re o (with_memory n w))
    unfolding show_table
    table-IsAlike re none w n h pt r = (n, r, refl, refl)
    table-IsAlike re (some t) w n h pt r = rows-IsAlike re t w n mbb_xml_msg_ok h pt r

    named-IsAlike :
        (name : Bytes) (w : VarState M) (n : M)
        → IsHidden Related May privs mask w
        → IsPointed Related May privs current mask w
        → Related w.memory n
        → IsAlike
            (show_named vprintf strsplit privs current mask name w)
            (show_named vprintf strsplit privs current mask name (with_memory n w))
    unfolding show_named mbb_var_get_by_name mbb_var_is_alive
    named-IsAlike name w n h pt r = elim (Option-cases (mbb_var_get_by_name name w)) [
      | inl e ↦ rw (show_named, e) (n, r, refl, refl)
      | inr (x, e) ↦ elim (Bool-cases (mbb_var_can_read (w.heap x) mask)) [
        | inr shut ↦ rw (show_named, e, shut) (n, r, refl, refl)
        | inl listed ↦
            let (s, m', n', value, r', pt', a, b) =
              read_alike Related May privs current mask x w n h pt r listed in
            rw (show_named, e, listed, a, b) (n', r', refl, refl)
      ]
    ]

    -- Take two states that differ in their memories only, which are related, where the relation is
    -- such that the variables that the caller's capabilities may read have the same values in
    -- related memories, through each pointer that they may have, and that making data for them in
    -- a session, which copies what it likes, gives the same pointer and keeps the memories
    -- related. Then the two requests that show variables give the same answer in both states,
    -- and leave states that are the same up to related memories.
    pub show_vars-var_show :
        (re_new : Option Bytes → Option (Bytes → Bool)) (tag : XmlTag) (w : VarState M) (n : M)
        → IsHidden Related May privs mask w
        → IsPointed Related May privs current mask w
        → Related w.memory n
        → IsAlike
            (show_vars vprintf strsplit privs current re_new mask tag w)
            (show_vars vprintf strsplit privs current re_new mask tag (with_memory n w))
          × IsAlike
              (var_show vprintf strsplit privs current mask tag w)
              (var_show vprintf strsplit privs current mask tag (with_memory n w))
    unfolding show_vars var_show
    show_vars-var_show re_new tag w n h pt r = (
      regex (mbb_xtv_call_z vprintf strsplit tag (xtv_regex_value re_new ∷ [])),
      named (mbb_xtv_call_z vprintf strsplit tag (xtv_var_name ∷ [])),
    )
      where
        regex :
            (c : XtvCall (Bytes → Bool))
            → IsAlike
                (with_regex vprintf strsplit privs current mask w c)
                (with_regex vprintf strsplit privs current mask (with_memory n w) c)
        regex (refused ans) = (n, r, refl, refl)
        regex (taken vs) = table-IsAlike (stored_regex vs) w.ht w n h pt r

        named :
            (c : XtvCall (Option Bytes))
            → IsAlike
                (with_name (show_named vprintf strsplit privs current mask) w c)
                (with_name (show_named vprintf strsplit privs current mask) (with_memory n w) c)
        named (refused ans) = (n, r, refl, refl)
        named (taken []) = tt
        named (taken (v ∷ vs)) = elim (Option-cases (stored_text v)) [
          | inl e ↦ rw (with_name, e) tt
          | inr (name, e) ↦ rw (with_name, e) (named-IsAlike name w n h pt r)
        ]

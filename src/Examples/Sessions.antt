-- ===== src/Examples/Sessions.antt =====
-- Two sessions, the second with an unsaved change.
use pwnproxy.Prelude.{
  arith, String, Bool, true, false, none, some, [], ◌∷◌, ◌≡◌, ◌≢◌, refl, string_eq,
}
use pwnproxy.Dict
use pwnproxy.Session.Manager.{
  Files, Modules, SessionManager, no_files, exists, proxy_toggle, mark_unsaved, create, save,
  save_as, delete, is_active, write_last_session, point_engines,
}
use pwnproxy.Session.Saved.{Returns}
use pwnproxy.Session.Reached.{new_manager, Call, Reach, switch_back}

-- a loader that keeps one flag
abbrev modules : Modules Bool Bool
modules = record { gather = λ l. l; apply = λ s l. s; attached = λ l. true }

abbrev empty_files : Files Bool
empty_files = no_files Bool

abbrev begun : SessionManager Bool Bool
begun = record (new_manager true) { sessions = ("old", empty_files) ∷ [] }

abbrev created : SessionManager Bool Bool
created = elim (create modules 5 "new" begun) [ none ↦ begun | some m ↦ m ]

abbrev edited : SessionManager Bool Bool
edited = proxy_toggle created

create_returns : create modules 5 "new" begun ≡ some created
unfolding create exists Dict.get new_manager
create_returns = refl

edited-Reach : Reach modules edited
unfolding new_manager
edited-Reach =
    Reach.next
      (Reach.next (Reach.fresh true false (("old", empty_files) ∷ []) none)
        (Call.creates begun created 5 "new" create_returns))
      (Call.toggles created)

edited_active : edited.active_name ≡ some "new"
unfolding create exists Dict.get new_manager proxy_toggle mark_unsaved write_last_session
    point_engines
edited_active = refl

old_exists : exists "old" edited ≡ true
unfolding create exists Dict.get Dict.put new_manager proxy_toggle mark_unsaved write_last_session
    point_engines
old_exists = refl

new-ne-old : ◌≢◌ {A = String} "new" "old"
new-ne-old e = absurd (ground (arith, string_eq.decides "new" "old", e))

new-ne-empty : ◌≢◌ {A = String} "new" ""
new-ne-empty e = absurd (ground (arith, string_eq.decides "new" "", e))

switch_back_example : Returns modules 6 7 "new" "old" edited
switch_back_example =
    switch_back modules 6 7 "new" "old" edited edited-Reach edited_active new-ne-empty old_exists
      new-ne-old

-- a session of the empty name is not saved, and what it had is lost by a load of another
abbrev nameless : SessionManager Bool Bool
nameless = proxy_toggle (record begun { active_name = some ""; active_path = "" })

nameless_not_saved : save modules 6 nameless ≡ nameless
unfolding save save_as proxy_toggle mark_unsaved
nameless_not_saved = refl

-- a deletion of the empty name takes every session
all_deleted : exists "old" (elim (delete "" begun) [ none ↦ begun | some m ↦ m ]) ≡ false
unfolding delete exists is_active Dict.get new_manager
all_deleted = refl

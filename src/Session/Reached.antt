-- ===== src/Session/Reached.antt =====
-- The manager under any sequence of its operations.
use pwnproxy.Prelude.{
  ℕ, String, Bool, true, false, not, ◌&&◌, Option, none, some, List, [], ◌==◌, string_eq, if-holds,
  ◌≡◌, ◌≢◌, refl, subst,
}
use pwnproxy.Session.Scope.{ScopeData, no_data, new_scope, or_else}
use pwnproxy.Session.Manager.{
  Files, Modules, SessionManager, no_proxy_data, new_proxy_config, exists, with_root,
  read_last_session, mark_unsaved, proxy_toggle, delete, rename_request, ensure_lazy, save, load,
  ensure_default, create, update_scope, provide, set_module_providers, resume, start, stop,
  auto_save,
}
use pwnproxy.Session.Saved.{IsKept, Returns, switch_kept}
use pwnproxy.Session.Steps.{
  IfSome, at_lem, save_at, save_if_unsaved-IsKept, moved, rooted, dirty, load-IsKept, create-IsKept,
  delete-IsKept, update_scope-IsKept, ensure_default-IsKept, rename_request-IsKept,
}

-- the manager as it is made
unfoldable pub new_manager : {L M : Type 0} → L → SessionManager L M
new_manager loader = record {
  sessions = [];
  last_session = none;
  active_name = none;
  active_path = "default";
  unsaved = false;
  running = false;
  scope = new_scope no_data;
  proxy_config = new_proxy_config no_proxy_data;
  loader = loader;
  pending_module_state = none;
  has_scope_handler = false;
  scope_changes = [];
  engines_at = "default";
}

module _ {L M : Type 0} (modules : Modules L M) where
  -- a call that returns; one that raises changes nothing. Left out is a deletion of the empty name.
  --  The state of the modules changes by
  -- itself.
  pub data Call : SessionManager L M → SessionManager L M → Type 0 where
    creates :
        (m u : SessionManager L M) (now : ℕ) (name : String)
        → create modules now name m ≡ some u
        → Call m u
    loads :
        (m u : SessionManager L M) (now : ℕ) (name : String)
        → load modules now name m ≡ some u
        → Call m u
    deletes :
        (m u : SessionManager L M) (name : String) → name ≢ "" → delete name m ≡ some u → Call m u
    renames :
        (m u : SessionManager L M) (now : ℕ) (old name : String)
        → rename_request now old name m ≡ some u
        → Call m u
    saves : (m : SessionManager L M) (now : ℕ) → Call m (save modules now m)
    scopes :
        (m : SessionManager L M) (now : ℕ) (d : ScopeData) → Call m (update_scope modules now d m)
    marks : (m : SessionManager L M) → Call m (mark_unsaved m)
    toggles : (m : SessionManager L M) → Call m (proxy_toggle m)
    starts : (m : SessionManager L M) (now : ℕ) → Call m (start modules now m)
    stops : (m : SessionManager L M) (now : ℕ) → Call m (stop modules now m)
    auto_saves : (m : SessionManager L M) (now : ℕ) → Call m (auto_save modules now m)
    provides :
        (m : SessionManager L M) (loader : L) → Call m (set_module_providers modules loader m)
    defaults : (m : SessionManager L M) → Call m (ensure_default modules m)
    forgets : (m : SessionManager L M) → Call m (ensure_lazy m)
    acts : (m : SessionManager L M) (loader : L) → Call m (record m { loader = loader })

  -- from a manager over the sessions of a directory
  pub data Reach : SessionManager L M → Type 0 where
    fresh :
        (loader : L) (handler : Bool) (sessions : List (String × Files M)) (last : Option String)
        → Reach (record (new_manager loader) {
          sessions = sessions;
          last_session = last;
          has_scope_handler = handler;
        })
    next : {m u : SessionManager L M} → Reach m → Call m u → Reach u

  of_some :
      (o : Option (SessionManager L M)) (u : SessionManager L M)
      → o ≡ some u
      → IfSome (IsKept modules) o
      → IsKept modules u
  of_some o u e h = subst (IfSome (IsKept modules)) e h

  resume-IsKept :
      (now : ℕ) (last : Option String) (m : SessionManager L M)
      → IsKept modules m
      → IsKept modules (resume modules now last m)
  resume-IsKept now none m k = k
  resume-IsKept now (some last) m k =
      if-holds (IsKept modules) (not (last == "") && exists last m)
        (λ _. read (load modules now last m) (load-IsKept modules now last m)) (λ _. k)
    where
      read :
          (o : Option (SessionManager L M))
          → IfSome (IsKept modules) o
          → IsKept modules (or_else o m)
      read none h = k
      read (some u) h = h

  provide-IsKept :
      (loader : L) (state : Option M) (m : SessionManager L M)
      → IsKept modules m
      → IsKept modules (provide modules loader state m)
  provide-IsKept loader none m k =
      moved modules m.active_name m (record m { loader = loader }) (refl, refl, refl, refl, refl) k
  provide-IsKept loader (some state) m k =
      moved modules m.active_name m
        (record m { loader = modules.apply state loader; pending_module_state = none })
        (refl, refl, refl, refl, refl) k

  Call-IsKept : {m u : SessionManager L M} → Call m u → IsKept modules m → IsKept modules u
  unfolding mark_unsaved proxy_toggle start stop auto_save ensure_lazy set_module_providers
  Call-IsKept (creates m u now name e) k = of_some _ u e (create-IsKept modules now name m)
  Call-IsKept (loads m u now name e) k = of_some _ u e (load-IsKept modules now name m)
  Call-IsKept (deletes m u name x e) k = of_some _ u e (delete-IsKept modules name m x k)
  Call-IsKept (renames m u now old name e) k =
      of_some _ u e (rename_request-IsKept modules now old name m k)
  Call-IsKept (saves m now) k = save_at modules now m (at_lem modules m.active_name m k)
  Call-IsKept (scopes m now d) k = update_scope-IsKept modules now d m k
  Call-IsKept (marks m) k = dirty modules m.active_name m (mark_unsaved m) refl refl refl k
  Call-IsKept (toggles m) k = dirty modules m.active_name m (proxy_toggle m) refl refl refl k
  Call-IsKept (starts m now) k =
      let on = record m { running = true; sessions = with_root m.sessions } in
      resume-IsKept now (read_last_session m) on (rooted modules m.active_name m k)
  Call-IsKept (stops m now) k =
      let off = record m { running = false } in
      save_if_unsaved-IsKept modules now off
        (moved modules m.active_name m off (refl, refl, refl, refl, refl) k)
  Call-IsKept (auto_saves m now) k =
      if-holds (IsKept modules) m.running (λ _. save_if_unsaved-IsKept modules now m k) (λ _. k)
  Call-IsKept (provides m loader) k = provide-IsKept loader m.pending_module_state m k
  Call-IsKept (defaults m) k = ensure_default-IsKept modules m k
  Call-IsKept (forgets m) k = tt
  Call-IsKept (acts m loader) k =
      moved modules m.active_name m (record m { loader = loader }) (refl, refl, refl, refl, refl) k

  Reach-IsKept : {m : SessionManager L M} → Reach m → IsKept modules m
  unfolding new_manager
  Reach-IsKept (fresh loader handler sessions last) = tt
  Reach-IsKept (next r c) = Call-IsKept c (Reach-IsKept r)

  -- After any calls of the manager but a deletion of the empty name, which takes all sessions, and for
  -- an active session whose name is not empty: to load another session that exists, and then to load
  -- again the one that was active, succeeds and comes back to its scope and its proxy configuration,
  -- whether they had been saved or not.
  pub switch_back :
      (now later : ℕ) (name other : String) (m : SessionManager L M)
      → Reach m
      → m.active_name ≡ some name
      → name ≢ ""
      → exists other m ≡ true
      → name ≢ other
      → Returns modules now later name other m
  switch_back now later name other m r a x e n =
      switch_kept modules now later name other m a x (Reach-IsKept r) e n

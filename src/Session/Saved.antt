-- ===== src/Session/Saved.antt =====
-- What a session keeps of the manager's state, and that nothing of it is lost.
use pwnproxy.Prelude.{
  arith, ℕ, String, true, false, not, Option, none, some, ◌==◌, ==_iff, ==_refl, string_eq,
  if◌then◌else◌, if-holds, if_true, if_false, ◌≡◌, ◌≢◌, ◌⊎◌, inl, inr, [], ◌∷◌, refl, sym, ap, ◌∙◌,
  subst,
}
use pwnproxy.Dict.{Dict, get, get_or, put, get-put}
use pwnproxy.Session.Scope.{ScopeConfig, new_scope, to_dict}
use pwnproxy.Session.Manager.{
  ProxyConfig, Files, Modules, SessionManager, new_proxy_config, proxy_to_dict, no_files, exists,
  files_of, point_engines, write_last_session, saved_files, write_files, is_empty, save_as, save,
  save_if_unsaved, read_scope, read_proxy, read_modules, restore, load,
}

module _ {L M : Type 0} (modules : Modules L M) where
  -- reading the files would leave the scope and the proxy configuration as they are
  abbrev pub Keeps : Files M → ScopeConfig → ProxyConfig → Type 0
  Keeps f scope proxy = (read_scope modules f ≡ scope) × (read_proxy modules f proxy ≡ proxy)

  -- the active session's directory is there, and what is not to be saved is in its files
  abbrev pub HasFiles : String → SessionManager L M → Type 0
  HasFiles name m =
      (f : Files M) × (get m.sessions name ≡ some f)
      × (m.unsaved ≡ false → Keeps f m.scope m.proxy_config)

  -- nothing is kept for the empty name
  abbrev pub IsKeptAs : Option String → SessionManager L M → Type 0
  IsKeptAs none m = Unit
  IsKeptAs (some name) m = (m.active_path ≡ name) × ((name ≡ "") ⊎ HasFiles name m)

  abbrev pub IsKept : SessionManager L M → Type 0
  IsKept m = IsKeptAs m.active_name m

  saved_files-Keeps :
      (now : ℕ) (name : String) (m : SessionManager L M)
      → Keeps (saved_files modules now name m) m.scope m.proxy_config
  unfolding saved_files read_scope read_proxy new_scope to_dict new_proxy_config proxy_to_dict
  saved_files-Keeps now name m = (refl, refl)

  saved-sessions :
      (now : ℕ) (name other : String) (m : SessionManager L M)
      → m.active_path ≡ name
      → get (write_files modules now name m).sessions other
        ≡ (if name == other then some (saved_files modules now name m) else get m.sessions other)
  unfolding write_files point_engines
  saved-sessions now name other m p =
      let once = put m.sessions m.active_path (saved_files modules now name m) in
      ground (
        arith,
        p,
        string_eq.decides name other,
        string_eq.decides m.active_path other,
        get-put once m.active_path other (get_or once m.active_path (no_files M)),
        get-put m.sessions m.active_path other (saved_files modules now name m),
        get-put m.sessions m.active_path m.active_path (saved_files modules now name m),
        ==_refl m.active_path,
      )

  -- what a save leaves alone
  abbrev pub SameState : SessionManager L M → SessionManager L M → Type 0
  SameState m u =
      (u.active_name ≡ m.active_name)
      × (u.active_path ≡ m.active_path)
      × (u.scope ≡ m.scope)
      × (u.proxy_config ≡ m.proxy_config)

  write_files-SameState :
      (now : ℕ) (name : String) (m : SessionManager L M)
      → SameState m (write_files modules now name m)
  unfolding write_files point_engines
  write_files-SameState now name m = (refl, refl, refl, refl)

  save_as-SameState :
      (now : ℕ) (name : Option String) (m : SessionManager L M)
      → SameState m (save_as modules now name m)
  unfolding save_as
  save_as-SameState now none m = (refl, refl, refl, refl)
  save_as-SameState now (some name) m =
      if-holds (SameState m) (name == "") (λ _. (refl, refl, refl, refl))
        (λ _. write_files-SameState now name m)

  pub save-SameState : (now : ℕ) (m : SessionManager L M) → SameState m (save modules now m)
  unfolding save
  save-SameState now m = save_as-SameState now m.active_name m

  abbrev pub IsAt : Option String → SessionManager L M → Type 0
  IsAt none m = Unit
  IsAt (some name) m = m.active_path ≡ name

  -- afterwards nothing is unsaved, if there is an active session
  pub save_as-IsKeptAs :
      (now : ℕ) (name : Option String) (m : SessionManager L M)
      → IsAt name m
      → IsKeptAs name (save_as modules now name m)
  unfolding save_as write_files point_engines
  save_as-IsKeptAs now none m k = tt
  save_as-IsKeptAs now (some name) m k =
      if-holds (IsKeptAs (some name)) (name == "") (λ e. (k, inl ((==_iff name "").0 e)))
        (λ _. (
          k,
          inr (
            saved_files modules now name m,
            saved-sessions now name name m k ∙ if_true (name == name) _ _ (==_refl name),
            λ _. saved_files-Keeps now name m,
          ),
        ))

  save_as-named :
      (now : ℕ) (name : String) (m : SessionManager L M)
      → name ≢ ""
      → save_as modules now (some name) m ≡ write_files modules now name m
  unfolding save_as
  save_as-named now name m x =
      if_false (name == "") _ _ (ground (arith, string_eq.decides name "", x))

  -- a save where something is unsaved: the files hold the scope and the proxy configuration
  abbrev Holds : String → SessionManager L M → SessionManager L M → Type 0
  Holds name m s =
      SameState m s
      × (f : Files M) × (get s.sessions name ≡ some f)
      × Keeps f m.scope m.proxy_config

  save_if_unsaved-Holds :
      (now : ℕ) (name : String) (m : SessionManager L M)
      → m.active_name ≡ some name
      → name ≢ ""
      → IsKept m
      → Holds name m (save_if_unsaved modules now m)
  unfolding save_if_unsaved save
  save_if_unsaved-Holds now name m a x k =
      let kept : IsKeptAs (some name) m = subst (λ o. IsKeptAs o m) a k in
      let has : HasFiles name m = elim kept.1 [ inl e ↦ absurd (x e) | inr h ↦ h ] in
      if-holds (Holds name m) m.unsaved
        (λ _.
          subst (λ o. Holds name m (save_as modules now o m)) (sym a)
            (subst (Holds name m) (sym (save_as-named now name m x)) (
              write_files-SameState now name m,
              saved_files modules now name m,
              saved-sessions now name name m kept.0 ∙ if_true (name == name) _ _ (==_refl name),
              saved_files-Keeps now name m,
            )))
        (λ clean. ((refl, refl, refl, refl), has.0, has.1, has.2 clean))

  pub exists_lem :
      (name : String) (m : SessionManager L M) (f : Files M)
      → get m.sessions name ≡ some f
      → exists name m ≡ true
  unfolding exists get
  exists_lem name m f h = there m.sessions h
    where
      there :
          (d : Dict String (Files M))
          → get d name ≡ some f
          → (if name == ""
              then not (is_empty d)
              else elim (get d name) [ none ↦ false | some _ ↦ true ])
            ≡ true
      there [] e = absurd (ground (arith, e))
      there (x ∷ d) e = if-holds (λ b. b ≡ true) (name == "") (λ _. refl) (λ _. rw e refl)

  read_modules-state :
      (state : Option M) (m : SessionManager L M)
      → SameState m (read_modules modules state m)
        × ((read_modules modules state m).sessions ≡ m.sessions)
  unfolding read_modules
  read_modules-state none m = ((refl, refl, refl, refl), refl)
  read_modules-state (some state) m =
      if-holds (λ u. SameState m u × (u.sessions ≡ m.sessions)) (modules.attached m.loader)
        (λ _. ((refl, refl, refl, refl), refl)) (λ _. ((refl, refl, refl, refl), refl))

  -- the state after a load of a session that is there
  abbrev pub loaded : ℕ → String → SessionManager L M → SessionManager L M
  loaded now name m =
      write_last_session name
        (record (restore modules name (save_if_unsaved modules now m)) { unsaved = false })

  pub load-eq :
      (now : ℕ) (name : String) (m : SessionManager L M)
      → exists name m ≡ true
      → load modules now name m ≡ some (loaded now name m)
  unfolding load
  load-eq now name m e = if_false (not (exists name m)) _ _ (ap not e)

  -- the state that a session is restored to
  abbrev pub IsRestored : String → SessionManager L M → SessionManager L M → Type 0
  IsRestored name s u =
      (u.active_name ≡ some name)
      × (u.active_path ≡ name)
      × (u.scope ≡ read_scope modules (files_of name s))
      × (u.proxy_config ≡ read_proxy modules (files_of name s) s.proxy_config)
      × ((other : String)
          → get u.sessions other
            ≡ (if name == other then some (files_of name s) else get s.sessions other))

  pub restore-IsRestored :
      (name : String) (s : SessionManager L M) → IsRestored name s (restore modules name s)
  unfolding restore point_engines
  restore-IsRestored name s =
      let r = read_modules-state (files_of name s).modules _ in
      (
        r.0.0,
        r.0.1,
        r.0.2,
        r.0.3,
        λ other. ap (λ d. get d other) r.1 ∙ get-put s.sessions name other (files_of name s),
      )

  pub loaded-IsRestored :
      (now : ℕ) (name : String) (m : SessionManager L M)
      → IsRestored name (save_if_unsaved modules now m) (loaded now name m)
  unfolding write_last_session
  loaded-IsRestored now name m = restore-IsRestored name (save_if_unsaved modules now m)

  clean-save_if_unsaved :
      (now later : ℕ) (name : String) (m : SessionManager L M)
      → save_if_unsaved modules later (loaded now name m) ≡ loaded now name m
  unfolding save_if_unsaved write_last_session
  clean-save_if_unsaved now later name m = refl

  -- the address is not read
  pub read_proxy-address :
      (f g : Files M) (proxy : ProxyConfig)
      → read_proxy modules f (read_proxy modules g proxy) ≡ read_proxy modules f proxy
  unfolding read_proxy
  read_proxy-address f g proxy = refl

  -- what a load of `name` finds after one of `other`
  files_after :
      (now : ℕ) (name other : String) (m : SessionManager L M) (f : Files M)
      → name ≢ other
      → get (save_if_unsaved modules now m).sessions name ≡ some f
      → get (loaded now other m).sessions name ≡ some f
  files_after now name other m f n g =
      (loaded-IsRestored now other m).4 name
      ∙ if_false (other == name) _ _ (ground (arith, string_eq.decides other name, n))
      ∙ g

  abbrev pub Returns : ℕ → ℕ → String → String → SessionManager L M → Type 0
  Returns now later name other m =
      (u : SessionManager L M) × (v : SessionManager L M) × (load modules now other m ≡ some u)
      × (load modules later name u ≡ some v)
      × (v.active_name ≡ some name)
      × (v.scope ≡ m.scope)
      × (v.proxy_config ≡ m.proxy_config)

  pub switch_kept :
      (now later : ℕ) (name other : String) (m : SessionManager L M)
      → m.active_name ≡ some name
      → name ≢ ""
      → IsKept m
      → exists other m ≡ true
      → name ≢ other
      → Returns now later name other m
  switch_kept now later name other m a x k e n =
      let s = save_if_unsaved modules now m in
      let held = save_if_unsaved-Holds now name m a x k in
      let u = loaded now other m in
      let v = loaded later name u in
      let there = files_after now name other m held.1 n held.2 in
      let found : files_of name u ≡ held.1 =
        ap (λ o. elim o [ none ↦ no_files M | some f ↦ f ]) there in
      let clean = clean-save_if_unsaved now later other m in
      let back = loaded-IsRestored later name u in
      let files : files_of name (save_if_unsaved modules later u) ≡ held.1 =
        ap (files_of name) clean ∙ found in
      (
        u,
        v,
        load-eq now other m e,
        load-eq later name u (exists_lem name u held.1 there),
        back.0,
        back.2 ∙ ap (read_scope modules) files ∙ held.3.0,
        back.3
            ∙ ap (λ w. read_proxy modules (files_of name w) w.proxy_config) clean
            ∙ ap (λ f. read_proxy modules f u.proxy_config) found
            ∙ ap (read_proxy modules held.1) (loaded-IsRestored now other m).3
            ∙ read_proxy-address held.1 (files_of other s) s.proxy_config
            ∙ ap (read_proxy modules held.1) held.0.3
            ∙ held.3.1,
      )

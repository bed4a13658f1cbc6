-- ===== src/Session/Steps.antt =====
-- The operations of the manager keep the active session's directory true to what is saved.
use pwnproxy.Prelude.{
  arith, ℕ, String, true, false, not, Option, none, some, [], ◌∷◌, ◌++◌, ◌==◌, ==_iff, ==_refl,
  Bool, ◌||◌, ◌≢◌, string_eq, if◌then◌else◌, if-holds, if_true, if_false, Bool-cases, ◌≡◌, refl,
  sym, ap, ◌∙◌, subst, inl, inr,
}
use pwnproxy.Dict.{Dict, get, get_or, put, remove, get-put, get-put_self, get-remove}
use pwnproxy.Session.Scope.{ScopeData, ScopeConfig, no_data, new_scope, to_dict}
use pwnproxy.Session.Manager.{
  ProxyConfig, Files, Modules, SessionManager, no_files, no_proxy_data, new_proxy_config,
  proxy_to_dict, exists, with_root, rmtree, is_name, is_active, files_of, point_engines,
  write_last_session, delete, renamed, rename, rename_request, save, save_if_unsaved, read_scope,
  read_proxy, load, ensure_default, new_files, create, tell, update_scope,
}
use pwnproxy.Session.Saved.{
  Keeps, HasFiles, IsKeptAs, IsKept, IsAt, save_as-IsKeptAs, save-SameState, loaded, exists_lem,
  IsRestored, restore-IsRestored, loaded-IsRestored, read_proxy-address,
}

or_false : (a b : Bool) → (a || b) ≡ false → (a ≡ false) × (b ≡ false)
or_false a b h = (ground arith, ground arith)

-- of a result, if there is one
abbrev pub IfSome : {A : Type 0} → (A → Type 0) → Option A → Type 0
IfSome P none = Unit
IfSome P (some a) = P a

module _ {L M : Type 0} (modules : Modules L M) where
  new_files-Keeps :
      (now : ℕ) (name : String) (m : SessionManager L M) (proxy : ProxyConfig)
      → Keeps modules (new_files modules now name m proxy) (new_scope no_data) proxy
  unfolding new_files read_scope read_proxy new_scope to_dict proxy_to_dict new_proxy_config
  new_files-Keeps now name m proxy = (refl, refl)

  pub at_lem :
      (o : Option String) (m : SessionManager L M) → IsKeptAs modules o m → IsAt modules o m
  at_lem none m k = tt
  at_lem (some name) m k = k.0

  pub save_at :
      (now : ℕ) (m : SessionManager L M)
      → IsAt modules m.active_name m
      → IsKept modules (save modules now m)
  unfolding save
  save_at now m a =
      subst (λ o. IsKeptAs modules o (save modules now m)) (sym (save-SameState modules now m).0)
        (save_as-IsKeptAs modules now m.active_name m a)

  pub save_if_unsaved-IsKept :
      (now : ℕ) (m : SessionManager L M)
      → IsKept modules m
      → IsKept modules (save_if_unsaved modules now m)
  unfolding save_if_unsaved
  save_if_unsaved-IsKept now m k =
      if-holds (IsKept modules) m.unsaved (λ _. save_at now m (at_lem m.active_name m k)) (λ _. k)

  -- what the invariant reads is the same
  pub moved :
      (o : Option String) (m u : SessionManager L M)
      → (u.sessions ≡ m.sessions)
        × (u.active_path ≡ m.active_path)
        × (u.unsaved ≡ m.unsaved)
        × (u.scope ≡ m.scope)
        × (u.proxy_config ≡ m.proxy_config)
      → IsKeptAs modules o m
      → IsKeptAs modules o u
  moved none m u e k = tt
  moved (some name) m u e k = (
    e.1 ∙ k.0,
    elim k.1 [
      | inl x ↦ inl x
      | inr (f, g, clean) ↦ inr (
        f,
        ap (λ x. get x name) e.0 ∙ g,
        λ c.
            let h = clean (sym e.2 ∙ c) in
            (h.0 ∙ sym e.3, ap (read_proxy modules f) e.4 ∙ h.1 ∙ sym e.4),
      )
    ],
  )

  -- a change of the state that is marked as unsaved
  pub dirty :
      (o : Option String) (m u : SessionManager L M)
      → u.sessions ≡ m.sessions
      → u.active_path ≡ m.active_path
      → u.unsaved ≡ true
      → IsKeptAs modules o m
      → IsKeptAs modules o u
  dirty none m u s p d k = tt
  dirty (some name) m u s p d k = (
    p ∙ k.0,
    elim k.1 [
      | inl x ↦ inl x
      | inr (f, g, clean) ↦ inr (f, ap (λ x. get x name) s ∙ g, λ c. absurd (ground (arith, c, d)))
    ],
  )

  -- a state that was read from the files it points to
  restored-IsKept :
      (name : String) (s u : SessionManager L M) → IsRestored modules name s u → IsKept modules u
  restored-IsKept name s u r =
      let f = files_of name s in
      subst (λ o. IsKeptAs modules o u) (sym r.0)
        (
          r.1,
          inr (
            f,
            r.4 name ∙ if_true (name == name) _ _ (==_refl name),
            λ _. (
              sym r.2,
              ap (read_proxy modules f) r.3
                  ∙ read_proxy-address modules f f s.proxy_config
                  ∙ sym r.3,
            ),
          ),
        )

  pub load-IsKept :
      (now : ℕ) (name : String) (m : SessionManager L M)
      → IfSome (IsKept modules) (load modules now name m)
  unfolding load
  load-IsKept now name m =
      if-holds (IfSome (IsKept modules)) (not (exists name m)) (λ _. tt)
        (λ _.
          restored-IsKept name (save_if_unsaved modules now m) (loaded modules now name m)
            (loaded-IsRestored modules now name m))

  pub create-IsKept :
      (now : ℕ) (name : String) (m : SessionManager L M)
      → IfSome (IsKept modules) (create modules now name m)
  unfolding create write_last_session point_engines new_proxy_config
  create-IsKept now name m =
      let fresh = new_proxy_config no_proxy_data in
      let proxy = record fresh { host = m.proxy_config.host; port = m.proxy_config.port } in
      let f = new_files modules now name m proxy in
      let once = get-put_self m.sessions name f in
      if-holds (IfSome (IsKept modules)) (exists name m) (λ _. tt)
        (λ _. (
          refl,
          inr (
            f,
            get-put_self (put m.sessions name f) name _
                ∙ ap (λ o. some (elim o [ none ↦ no_files M | some g ↦ g ])) once,
            λ _. new_files-Keeps now name m proxy,
          ),
        ))

  get-with_root :
      (d : Dict String (Files M)) (name : String) → name ≢ "" → get (with_root d) name ≡ get d name
  get-with_root d name x =
      get-put d "" name (get_or d "" (no_files M))
      ∙ if_false ("" == name) _ _ (ground (arith, string_eq.decides "" name, x))

  -- the directory of all sessions is made, if it is missing
  pub rooted :
      (o : Option String) (m : SessionManager L M)
      → IsKeptAs modules o m
      → IsKeptAs modules o (record m { running = true; sessions = with_root m.sessions })
  rooted none m k = tt
  rooted (some name) m k = (
    k.0,
    elim k.1 [
      | inl x ↦ inl x
      | inr (f, g, clean) ↦ elim (Bool-cases (name == "")) [
        | inl e ↦ inl ((==_iff name "").0 e)
        | inr d ↦ inr (
          f,
          get-with_root m.sessions name (λ e. absurd (ground (arith, (==_iff name "").1 e, d))) ∙ g,
          clean,
        )
      ]
    ],
  )

  remove_other :
      (name : String) (o : Option String) (m : SessionManager L M)
      → name ≢ ""
      → is_name name o ≡ false
      → IsKeptAs modules o m
      → IsKeptAs modules o (record m {
        sessions = rmtree name m.sessions;
        last_session = if name == "" then none else m.last_session;
      })
  remove_other name none m x e k = tt
  remove_other name (some active) m x e k = (
    k.0,
    elim (rooted (some active) m k).1 [
      | inl y ↦ inl y
      | inr (f, g, clean) ↦ inr (
        f,
        ap (λ d. get d active)
              (if_false (name == "") _ _ (ground (arith, string_eq.decides name "", x)))
            ∙ get-remove (with_root m.sessions) name active
            ∙ if_false (name == active) _ _ e
            ∙ g,
        clean,
      )
    ],
  )

  pub delete-IsKept :
      (name : String) (m : SessionManager L M)
      → name ≢ ""
      → IsKept modules m
      → IfSome (IsKept modules) (delete name m)
  unfolding delete is_active
  delete-IsKept name m x k =
      if-holds (IfSome (IsKept modules)) (not (exists name m)) (λ _. tt)
        (λ _.
          if-holds (IsKept modules) (is_active name m) (λ _. tt)
            (λ e. remove_other name m.active_name m x e k))

  tell-IsKept : (m : SessionManager L M) → IsKept modules m → IsKept modules (tell modules m)
  tell-IsKept m k =
      if-holds (IsKept modules) m.has_scope_handler
        (λ _.
          moved m.active_name m
            (record m { scope_changes = m.scope_changes ++ to_dict m.scope ∷ [] })
            (refl, refl, refl, refl, refl) k)
        (λ _. k)

  pub update_scope-IsKept :
      (now : ℕ) (d : ScopeData) (m : SessionManager L M)
      → IsKept modules m
      → IsKept modules (update_scope modules now d m)
  unfolding update_scope
  update_scope-IsKept now d m k =
      tell-IsKept _ (save_at now (record m { scope = new_scope d }) (scoped m.active_name k))
    where
      scoped :
          (o : Option String)
          → IsKeptAs modules o m
          → IsAt modules o (record m { scope = new_scope d })
      scoped none h = tt
      scoped (some name) h = h.0

  pub ensure_default-IsKept :
      (m : SessionManager L M) → IsKept modules m → IsKept modules (ensure_default modules m)
  unfolding ensure_default
  ensure_default-IsKept m k =
      if-holds (IsKept modules) (exists "default" m)
        (λ _.
          restored-IsKept "default" (record m { unsaved = false }) _
            (restore-IsRestored modules "default" (record m { unsaved = false })))
        (λ _. k)

  renamed-Keeps :
      (now : ℕ) (name : String) (f : Files M) (scope : ScopeConfig) (proxy : ProxyConfig)
      → Keeps modules f scope proxy
      → Keeps modules (renamed now name f) scope proxy
  unfolding read_scope read_proxy
  renamed-Keeps now name f scope proxy k = k

  -- the directories after a rename
  abbrev moved_sessions : ℕ → String → String → SessionManager L M → Dict String (Files M)
  moved_sessions now old name m =
      put (remove m.sessions old) name (renamed now name (files_of old m))

  rename-active :
      (now : ℕ) (old name : String) (m : SessionManager L M)
      → old ≢ ""
      → IsKeptAs modules (some old) m
      → IsKept modules (record m {
        sessions = moved_sessions now old name m;
        active_name = some name;
        active_path = name;
      })
  rename-active now old name m x k =
      let has : HasFiles modules old m = elim k.1 [ inl e ↦ absurd (x e) | inr h ↦ h ] in
      let found : files_of old m ≡ has.0 =
        ap (λ o. elim o [ none ↦ no_files M | some g ↦ g ]) has.1 in
      (
        refl,
        inr (
          renamed now name (files_of old m),
          get-put_self (remove m.sessions old) name (renamed now name (files_of old m)),
          λ c.
              renamed-Keeps now name (files_of old m) m.scope m.proxy_config
                (subst (λ f. Keeps modules f m.scope m.proxy_config) (sym found) (has.2 c)),
        ),
      )

  apart :
      (name active : String) (m : SessionManager L M) (f : Files M)
      → exists name m ≡ false
      → get m.sessions active ≡ some f
      → (name == active) ≡ false
  apart name active m f n g = elim (Bool-cases (name == active)) [
    | inr d ↦ d
    | inl e ↦
        let there =
          exists_lem modules name m f
            (ap (get m.sessions) ((string_eq.decides name active).0 e) ∙ g) in
        absurd (ground (arith, there, n))
  ]

  rename-other :
      (now : ℕ) (old name : String) (o : Option String) (m : SessionManager L M)
      → exists name m ≡ false
      → is_name old o ≡ false
      → IsKeptAs modules o m
      → IsKeptAs modules o (record m { sessions = moved_sessions now old name m })
  unfolding exists
  rename-other now old name none m n e k = tt
  rename-other now old name (some active) m n e k = (
    k.0,
    elim k.1 [
      | inl x ↦ inl x
      | inr (f, g, clean) ↦ inr (
        f,
        get-put (remove m.sessions old) name active (renamed now name (files_of old m))
            ∙ if_false (name == active) _ _ (apart name active m f n g)
            ∙ get-remove m.sessions old active
            ∙ if_false (old == active) _ _ e
            ∙ g,
        clean,
      )
    ],
  )

  followed :
      (old name : String) (o : Option (SessionManager L M)) (m : SessionManager L M)
      → let told = λ (n : SessionManager L M).
        if is_active old m then record n { active_name = some name; active_path = name } else n in
        IfSome (λ n. IsKept modules (told n)) o
        → IfSome (IsKept modules) (elim o [ none ↦ none | some n ↦ some (told n) ])
  followed old name none m h = tt
  followed old name (some n) m h = h

  rename_both :
      (now : ℕ) (old name : String) (o : Option String) (m : SessionManager L M)
      → m.active_name ≡ o
      → old ≢ ""
      → exists name m ≡ false
      → IsKeptAs modules o m
      → let n = record m { sessions = moved_sessions now old name m } in
        IsKept modules
          (if is_name old o then record n { active_name = some name; active_path = name } else n)
  rename_both now old name none m a x n k =
      subst (λ o. IsKeptAs modules o (record m { sessions = moved_sessions now old name m }))
        (sym a) tt
  rename_both now old name (some active) m a x n k =
      if-holds (IsKept modules) (old == active)
        (λ e.
          rename-active now old name m x
            (subst (λ x. IsKeptAs modules (some x) m) (sym ((string_eq.decides old active).0 e)) k))
        (λ d.
          subst (λ o. IsKeptAs modules o (record m { sessions = moved_sessions now old name m }))
            (sym a) (rename-other now old name (some active) m n d k))

  pub rename_request-IsKept :
      (now : ℕ) (old name : String) (m : SessionManager L M)
      → IsKept modules m
      → IfSome (IsKept modules) (rename_request now old name m)
  unfolding rename_request rename is_active
  rename_request-IsKept now old name m k = followed old name (rename now old name m) m (
      if-holds (IfSome _) (not (exists old m)) (λ _. tt)
        (λ _.
          if-holds (IfSome _) (exists name m || old == "") (λ _. tt)
            (λ n.
              let both = or_false (exists name m) (old == "") n in
              rename_both now old name m.active_name m refl
                (λ e. absurd (ground (arith, (==_iff old "").1 e, both.1))) both.0 k)))

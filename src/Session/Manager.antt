-- ===== src/Session/Manager.antt =====
-- pwnproxy/services/session/manager.py, SessionManager and ProxyConfig. The sessions' directory is
-- a dictionary from names to the four files of a session, a path is its last component, a time is
-- an argument, and an operation that raises answers `none`. The empty name is the directory of all
-- sessions itself, which is there where anything is in it or it has an entry of its own; other names
-- that are no single component (a slash, `.` and `..`) are left out. What gathers and applies the state of
-- the modules (plugin loader and interceptor) is a parameter. The restart of the proxy and the
-- notification of a change of session are left out; where the databases of the engines lie is
-- `engines_at`.
use Prim.Native.String.{compare}
use text.Mathlib.Text.{is_le}
use pwnproxy.Prelude.{
  ℕ, String, Bool, true, false, not, ◌&&◌, ◌||◌, Option, none, some, List, [], ◌∷◌, ◌++◌, map, ◌==◌,
  string_eq, if◌then◌else◌,
}
use pwnproxy.Prelude.Sort.{sort_by}
use pwnproxy.Prelude.Text.{strip}
use pwnproxy.Dict.{Dict, get, get_or, put, remove}
use pwnproxy.Session.Scope.{ScopeData, ScopeConfig, no_data, new_scope, to_dict, or_else}

pub record ProxyData : Type 0 where
  pub host : Option String
  pub port : Option ℕ
  pub ssl_insecure : Option Bool
  pub upstream : Option String
  pub capture_enabled : Option Bool

pub record ProxyConfig : Type 0 where
  pub host : String
  pub port : ℕ
  pub ssl_insecure : Bool
  pub upstream : Option String
  pub capture_enabled : Bool

unfoldable pub new_proxy_config : ProxyData → ProxyConfig
new_proxy_config d = record {
  host = or_else d.host "127.0.0.1";
  port = or_else d.port 8080;
  ssl_insecure = or_else d.ssl_insecure true;
  upstream = d.upstream;
  capture_enabled = or_else d.capture_enabled true;
}

abbrev pub no_proxy_data : ProxyData
no_proxy_data = record {
  host = none;
  port = none;
  ssl_insecure = none;
  upstream = none;
  capture_enabled = none;
}

-- `ProxyConfig.to_dict`, without the address
unfoldable pub proxy_to_dict : ProxyConfig → ProxyData
proxy_to_dict c = record {
  host = none;
  port = none;
  ssl_insecure = some c.ssl_insecure;
  upstream = c.upstream;
  capture_enabled = some c.capture_enabled;
}

pub record Meta : Type 0 where
  pub name : String
  pub created_at : Option ℕ
  pub last_modified : Option ℕ
  pub version : ℕ

-- session.json, scope.json, proxy.json and modules.json
pub record Files (M : Type 0) : Type 0 where
  pub meta : Option Meta
  pub scope : Option ScopeData
  pub proxy : Option ProxyData
  pub modules : Option M

abbrev pub no_files : (M : Type 0) → Files M
no_files M = record { meta = none; scope = none; proxy = none; modules = none }

-- the providers of the modules: `L` is their state, `M` what a session keeps of it
pub record Modules (L M : Type 0) : Type 0 where
  pub gather : L → M
  pub apply : M → L → L
  pub attached : L → Bool

pub record SessionManager (L M : Type 0) : Type 0 where
  pub sessions : Dict String (Files M)
  pub last_session : Option String
  pub active_name : Option String
  pub active_path : String
  pub unsaved : Bool
  pub running : Bool
  pub scope : ScopeConfig
  pub proxy_config : ProxyConfig
  pub loader : L
  pub pending_module_state : Option M
  pub has_scope_handler : Bool
  pub scope_changes : List ScopeData
  pub engines_at : String

-- `name == self._active_name`
abbrev pub is_name : String → Option String → Bool
is_name name none = false
is_name name (some active) = name == active

-- one line of `list`
pub record SessionInfo : Type 0 where
  pub name : String
  pub created_at : Option ℕ
  pub last_modified : Option ℕ
  pub version : ℕ

-- the new name in session.json, if it is there
abbrev renamed_meta : ℕ → String → Option Meta → Option Meta
renamed_meta now name none = none
renamed_meta now name (some meta) = some (record meta { name = name; last_modified = some now })

abbrev pub renamed : {M : Type 0} → ℕ → String → Files M → Files M
renamed now name f = record f { meta = renamed_meta now name f.meta }

abbrev info_of : {M : Type 0} → String × Files M → SessionInfo
info_of (name, f) = elim f.meta [
  | none ↦ record { name = name; created_at = none; last_modified = none; version = 1 }
  | some meta ↦ record {
    name = name;
    created_at = meta.created_at;
    last_modified = meta.last_modified;
    version = meta.version;
  }
]

abbrev pub is_empty : {A : Type 0} → List A → Bool
is_empty [] = true
is_empty (x ∷ xs) = false

-- `SESSIONS_ROOT.mkdir`
abbrev pub with_root : {M : Type 0} → Dict String (Files M) → Dict String (Files M)
with_root {M} d = put d "" (get_or d "" (no_files M))

-- `shutil.rmtree`
abbrev pub rmtree : {M : Type 0} → String → Dict String (Files M) → Dict String (Files M)
rmtree name d = if name == "" then [] else remove (with_root d) name

module _ {L M : Type 0} where
  unfoldable pub exists : String → SessionManager L M → Bool
  exists name m =
      if name == ""
      then not (is_empty m.sessions)
      else elim (get m.sessions name) [ none ↦ false | some _ ↦ true ]

  abbrev pub files_of : String → SessionManager L M → Files M
  files_of name m = get_or m.sessions name (no_files M)

  -- the directory is made where it is missing
  unfoldable pub is_active : String → SessionManager L M → Bool
  is_active name m = is_name name m.active_name

  unfoldable pub point_engines : String → SessionManager L M → SessionManager L M
  point_engines path m = record m {
    sessions = put m.sessions path (files_of path m);
    engines_at = path;
  }

  unfoldable pub write_last_session : String → SessionManager L M → SessionManager L M
  write_last_session name m = record m { last_session = some name }

  unfoldable pub read_last_session : SessionManager L M → Option String
  read_last_session m = elim m.last_session [ none ↦ none | some text ↦ some (strip text) ]

  unfoldable pub mark_unsaved : SessionManager L M → SessionManager L M
  mark_unsaved m = record m { unsaved = true }

  -- the request that toggles the capture
  unfoldable pub proxy_toggle : SessionManager L M → SessionManager L M
  proxy_toggle m = mark_unsaved (record m {
    proxy_config = record m.proxy_config { capture_enabled = not m.proxy_config.capture_enabled };
  })

  unfoldable pub delete : String → SessionManager L M → Option (SessionManager L M)
  delete name m =
      let last = if name == "" then none else m.last_session in
      let gone = record m { sessions = rmtree name m.sessions; last_session = last } in
      let closed = record m {
        sessions = rmtree name m.sessions;
        last_session = last;
        active_name = none;
        active_path = "default";
        unsaved = false;
      } in
      if not (exists name m) then none else some (if is_active name m then closed else gone)

  -- on the directories alone: the manager is not told; the directory of all sessions cannot be moved
  -- into itself
  unfoldable pub rename : ℕ → String → String → SessionManager L M → Option (SessionManager L M)
  rename now old name m =
      if not (exists old m)
      then none
      else if exists name m || old == ""
      then none
      else some (record m {
        sessions = put (remove m.sessions old) name (renamed now name (files_of old m));
      })

  -- the request to rename, which tells the manager where the session is the active one
  unfoldable pub rename_request :
      ℕ → String → String → SessionManager L M → Option (SessionManager L M)
  rename_request now old name m = elim (rename now old name m) [
    | none ↦ none
    | some n ↦
        some
          (if is_active old m then record n { active_name = some name; active_path = name } else n)
  ]

  unfoldable pub list : SessionManager L M → List SessionInfo
  list m = map info_of (sort_by (λ a b. is_le (compare a.0 b.0)) (remove m.sessions ""))

  unfoldable pub ensure_lazy : SessionManager L M → SessionManager L M
  ensure_lazy m = record m {
    active_name = none;
    active_path = "default";
    unsaved = false;
    scope = new_scope no_data;
    proxy_config = new_proxy_config no_proxy_data;
  }

module _ {L M : Type 0} (modules : Modules L M) where
  -- the files that `save` writes
  unfoldable pub saved_files : ℕ → String → SessionManager L M → Files M
  saved_files now name m = record {
    meta = some (record { name = name; created_at = none; last_modified = some now; version = 1 });
    scope = some (to_dict m.scope);
    proxy = some (proxy_to_dict m.proxy_config);
    modules = some (modules.gather m.loader);
  }

  -- the body of `save` under the lock
  unfoldable pub write_files : ℕ → String → SessionManager L M → SessionManager L M
  write_files now name m =
      record (point_engines m.active_path
        (record m { sessions = put m.sessions m.active_path (saved_files now name m) })) {
          unsaved = false;
        }

  -- no session is active, or one of the empty name
  unfoldable pub save_as : ℕ → Option String → SessionManager L M → SessionManager L M
  save_as now none m = m
  save_as now (some name) m = if name == "" then m else write_files now name m

  unfoldable pub save : ℕ → SessionManager L M → SessionManager L M
  save now m = save_as now m.active_name m

  unfoldable pub save_if_unsaved : ℕ → SessionManager L M → SessionManager L M
  save_if_unsaved now m = if m.unsaved then save now m else m

  -- the scope and the proxy configuration of the files; the address stays
  unfoldable pub read_scope : Files M → ScopeConfig
  read_scope f = elim f.scope [ none ↦ new_scope no_data | some d ↦ new_scope d ]

  unfoldable pub read_proxy : Files M → ProxyConfig → ProxyConfig
  read_proxy f current =
      let read = new_proxy_config (or_else f.proxy no_proxy_data) in
      record read { host = current.host; port = current.port }

  unfoldable pub read_modules : Option M → SessionManager L M → SessionManager L M
  read_modules none m = m
  read_modules (some state) m =
      if modules.attached m.loader
      then record m { loader = modules.apply state m.loader }
      else record m { pending_module_state = some state }

  -- what `load` and `_ensure_default` do with the files of a session that is there
  unfoldable pub restore : String → SessionManager L M → SessionManager L M
  restore name m =
      let f = files_of name m in
      let pointed = point_engines name (record m { active_name = some name; active_path = name }) in
      read_modules f.modules
        (record pointed { scope = read_scope f; proxy_config = read_proxy f m.proxy_config })

  unfoldable pub load : ℕ → String → SessionManager L M → Option (SessionManager L M)
  load now name m =
      if not (exists name m)
      then none
      else some (
          write_last_session name
            (record (restore name (save_if_unsaved now m)) { unsaved = false }))

  unfoldable pub ensure_default : SessionManager L M → SessionManager L M
  ensure_default m =
      if exists "default" m then restore "default" (record m { unsaved = false }) else m

  -- the files of a new session
  unfoldable pub new_files : ℕ → String → SessionManager L M → ProxyConfig → Files M
  new_files now name m proxy = record {
    meta =
        some (record { name = name; created_at = some now; last_modified = some now; version = 1 });
    scope = some (to_dict (new_scope no_data));
    proxy = some (proxy_to_dict proxy);
    modules = some (modules.gather m.loader);
  }

  unfoldable pub create : ℕ → String → SessionManager L M → Option (SessionManager L M)
  create now name m =
      let fresh = new_proxy_config no_proxy_data in
      let proxy = record fresh { host = m.proxy_config.host; port = m.proxy_config.port } in
      if exists name m
      then none
      else some (
          write_last_session name (
            point_engines name (record m {
              sessions = put m.sessions name (new_files now name m proxy);
              active_name = some name;
              active_path = name;
              unsaved = false;
              scope = new_scope no_data;
              proxy_config = proxy;
            })))

  -- the handler is told of the scope
  abbrev pub tell : SessionManager L M → SessionManager L M
  tell m =
      if m.has_scope_handler
      then record m { scope_changes = m.scope_changes ++ to_dict m.scope ∷ [] }
      else m

  unfoldable pub update_scope : ℕ → ScopeData → SessionManager L M → SessionManager L M
  update_scope now d m = tell (save now (record m { scope = new_scope d }))

  -- providers given: a state that waited for them is applied
  abbrev pub provide : L → Option M → SessionManager L M → SessionManager L M
  provide loader none m = record m { loader = loader }
  provide loader (some state) m = record m {
    loader = modules.apply state loader;
    pending_module_state = none;
  }

  unfoldable pub set_module_providers : L → SessionManager L M → SessionManager L M
  set_module_providers loader m = provide loader m.pending_module_state m

  abbrev pub resume : ℕ → Option String → SessionManager L M → SessionManager L M
  resume now none m = m
  resume now (some last) m =
      if not (last == "") && exists last m then or_else (load now last m) m else m

  unfoldable pub start : ℕ → SessionManager L M → SessionManager L M
  start now m =
      resume now (read_last_session m)
        (record m { running = true; sessions = with_root m.sessions })

  unfoldable pub stop : ℕ → SessionManager L M → SessionManager L M
  stop now m = save_if_unsaved now (record m { running = false })

  -- a round of `_auto_save_loop`
  unfoldable pub auto_save : ℕ → SessionManager L M → SessionManager L M
  auto_save now m = if m.running then save_if_unsaved now m else m

-- ===== src/Session/Providers.antt =====
-- pwnproxy/services/session/manager.py, `_gather_module_state` and `_apply_module_state`: the
-- providers of Session/Manager are the loader of Plugins/Loader and the interceptor's controller,
-- either of which may be missing.
pub mod Flags
use pwnproxy.Prelude.{
  arith, ℕ, String, Bool, true, false, not, ◌&&◌, Option, none, some, List, [], ◌∷◌, ◌++◌, any_of,
  map, keep_if, All, ◌==◌, ==_iff, ==_refl, string_eq, if◌then◌else◌, if-holds, if_true, if_false,
  Bool-cases, ◌≡◌, ◌≢◌, refl, sym, ap, ◌∙◌, subst, inl, inr,
}
use pwnproxy.Prelude.Distinct.{Distinct}
use pwnproxy.Dict.{Dict, get, put, get-put}
use pwnproxy.Interceptor.{Interceptor, set_enabled}
use pwnproxy.Plugins.Loader.{
  Plugin, Loader, start_tasks, cancel_tasks, set_disabled, activate_plugin, activate,
  deactivate_plugin, deactivate, watchdog_stats,
}
use pwnproxy.Session.Manager.{Modules}

pub record Providers : Type 0 where
  pub loader : Option Loader
  pub controller : Option Interceptor

-- the object of modules.json; a missing key is `none`
pub record ModuleState : Type 0 where
  pub interceptor_enabled : Option Bool
  pub plugins : Option (List (String × Bool))

abbrev flags : Dict String Plugin → List (String × Bool) → List (String × Bool)
flags [] d = d
flags ((_, p) ∷ ps) d = flags ps (put d p.name p.disabled)

abbrev flags_of : Option Loader → List (String × Bool)
flags_of none = []
flags_of (some l) = flags l.plugins []

abbrev enabled_of : Option Interceptor → Bool
enabled_of none = true
enabled_of (some c) = c.enabled

unfoldable pub gather : Providers → ModuleState
gather p = record {
  interceptor_enabled = some (enabled_of p.controller);
  plugins = some (flags_of p.loader);
}

abbrev pub same_flag : Bool → Bool → Bool
same_flag true b = b
same_flag false b = not b

unfoldable pub apply_enabled : Option Bool → Option Interceptor → Option Interceptor
apply_enabled none c = c
apply_enabled (some wanted) none = none
apply_enabled (some wanted) (some c) =
    if same_flag c.enabled wanted then some c else some (set_enabled wanted c)

-- one plugin of the saved state
unfoldable pub apply_flag : String → Bool → Loader → Loader
apply_flag name disabled l =
    let was_disabled = any_of (λ n. n == name) (watchdog_stats l) in
    if disabled && not was_disabled
    then (deactivate name l).1
    else if not disabled && was_disabled
    then (activate name l).1
    else l

unfoldable pub apply_flags : List (String × Bool) → Loader → Loader
apply_flags [] l = l
apply_flags ((name, disabled) ∷ ps) l = apply_flags ps (apply_flag name disabled l)

abbrev apply_plugins : Option (List (String × Bool)) → Option Loader → Option Loader
apply_plugins none l = l
apply_plugins (some ps) none = none
apply_plugins (some ps) (some l) = some (apply_flags ps l)

unfoldable pub apply : ModuleState → Providers → Providers
apply state p = record {
  loader = apply_plugins state.plugins p.loader;
  controller = apply_enabled state.interceptor_enabled p.controller;
}

abbrev is_given : {A : Type 0} → Option A → Bool
is_given none = false
is_given (some _) = true

-- the parameter of the manager
abbrev pub session_modules : Modules Providers ModuleState
session_modules = record {
  gather = gather;
  apply = apply;
  attached = λ p. is_given p.loader && is_given p.controller;
}

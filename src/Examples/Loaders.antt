-- ===== src/Examples/Loaders.antt =====
-- A loader with two plugins of which one name begins like the other.
use pwnproxy.Prelude.{
  Bool, List, String, true, false, none, some, [], ◌∷◌, All, ◌≡◌, ◌≢◌, refl, arith, string_eq,
  nat_eq,
}
use Prim.Native.String.{◌++◌ as ◌<>◌}
use pwnproxy.Dict
use pwnproxy.Bus.Hooks
use pwnproxy.Plugins.Loader.{
  Plugin, Loader, new_loader, implicit_consumes, all_consumes, task_key, start_task, start_tasks,
  start_each, start, deactivate, activate,
}
use pwnproxy.Session.Providers.{apply_flags}
use pwnproxy.Session.Providers.Flags.{apply_flags-get}
use pwnproxy.Plugins.Loader.Tasks.{HasTask, deactivate-longer, deactivate-activate}

abbrev plugin : String → Plugin
plugin name = record {
  name = name;
  class_name = "Plugin";
  consumes = "flow" ∷ [];
  produces = [];
  disabled = false;
  on_finding = true;
  on_surface = false;
  on_evidence = false;
  on_flow = true;
}

abbrev loader : Loader
loader = start [] none (record (new_loader Hooks.init) {
  plugins = ("sqli", plugin "sqli") ∷ ("sqli_blind", plugin "sqli_blind") ∷ [];
})

sqli_loaded : Dict.get loader.plugins "sqli" ≡ some (plugin "sqli")
unfolding Dict.get start start_each start_tasks start_task all_consumes implicit_consumes
sqli_loaded = refl

deactivate-longer_example :
    let u = (deactivate "sqli" loader).1 in
    (Dict.get u.plugin_tasks (task_key ("sqli" <> ("_" <> "blind")) "flow") ≡ none)
    × (Dict.get u.plugins ("sqli" <> ("_" <> "blind"))
        ≡ Dict.get loader.plugins ("sqli" <> ("_" <> "blind")))
deactivate-longer_example =
    deactivate-longer "sqli" "blind" "flow" (plugin "sqli") loader sqli_loaded refl

deactivate-activate_example :
    let u = (deactivate "sqli" loader).1 in
    let v = (activate "sqli" u).1 in
    (Dict.get u.plugins "sqli" ≡ some (record (plugin "sqli") { disabled = true }))
    × ((c : String) → Dict.get u.plugin_tasks (task_key "sqli" c) ≡ none)
    × (Dict.get v.plugins "sqli" ≡ some (plugin "sqli"))
    × All (HasTask "sqli" v) (all_consumes (plugin "sqli"))
deactivate-activate_example = deactivate-activate "sqli" (plugin "sqli") loader sqli_loaded refl

abbrev kept : List (String × Bool)
kept = ("sqli", true) ∷ ("xss", false) ∷ []

abbrev two : Loader
two = record (new_loader Hooks.init) {
  plugins = ("sqli", plugin "sqli") ∷ ("xss", plugin "xss") ∷ [];
}

xss-ne-sqli : ◌≢◌ {A = String} "xss" "sqli"
xss-ne-sqli e = absurd (ground (arith, string_eq.decides "xss" "sqli", e))

xss_kept : Dict.get kept "xss" ≡ some false
unfolding Dict.get
xss_kept = refl

xss_loaded : Dict.get two.plugins "xss" ≡ some (plugin "xss")
unfolding Dict.get
xss_loaded = refl

apply_flags-get_example :
    Dict.get (apply_flags kept two).plugins "xss"
    ≡ some (record (plugin "xss") { disabled = false })
apply_flags-get_example =
    apply_flags-get kept two "xss" false (plugin "xss") ((xss-ne-sqli, tt), (tt, tt))
      ((xss-ne-sqli, tt), (tt, tt)) xss_kept xss_loaded

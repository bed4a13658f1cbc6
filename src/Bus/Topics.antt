-- ===== src/Bus/Topics.antt =====
-- pwnproxy/shared/bus/topics.py: the topic names, and the QoS class of each topic and channel.
use pwnproxy.Prelude.{String, [], ◌∷◌, ◌++◌, string_eq}
use pwnproxy.Dict.{Dict, get_or}

pub data QoSClass : Type 0 where
  critical important best_effort : QoSClass

abbrev pub default_qos : QoSClass
default_qos = best_effort

abbrev pub topic_qos : Dict String QoSClass
topic_qos =
    ("finding.created", critical)
    ∷ ("job.state_changed", critical)
    ∷ ("scope.updated", critical)
    ∷ ("crawl.started", critical)
    ∷ ("crawl.failed", critical)
    ∷ ("crawl.completed", critical)
    ∷ ("bruteforce.started", critical)
    ∷ ("bruteforce.completed", critical)
    ∷ ("bruteforce.failed", critical)
    ∷ ("scan.started", critical)
    ∷ ("scan.completed", critical)
    ∷ ("autoscan.started", important)
    ∷ ("autoscan.completed", important)
    ∷ ("crawl.progress", important)
    ∷ ("bruteforce.progress", important)
    ∷ ("triage.updated", important)
    ∷ ("crawler.flow", best_effort)
    ∷ ("crawler.url", best_effort)
    ∷ ("bruteforce.url", best_effort)
    ∷ []

-- The names of the two tables do not overlap, so the merge is an append.
abbrev pub hookbus_qos : Dict String QoSClass
hookbus_qos =
    topic_qos
    ++ ("finding", critical)
      ∷ ("error", critical)
      ∷ ("flow", best_effort)
      ∷ ("flow_stored", important)
      ∷ ("done", best_effort)
      ∷ ("request", best_effort)
      ∷ ("response", best_effort)
      ∷ []

-- HOOKBUS_QOS.get(channel, DEFAULT_QOS)
unfoldable pub channel_qos : String → QoSClass
channel_qos channel = get_or hookbus_qos channel default_qos

-- ===== src/Ingest/Monitor.antt =====
-- src/ingest/monitor.rs: the state of a monitor, and the loop over its commands. A sample is a
-- parameter: what its key and its view are (src/ingest/sample.rs), and the `==` of keys. The channels
-- are tokio's: a run is the list of what the `select!` of each round sees, the updates are those given
-- to the bus, and a reply channel is a number. Log output is not modelled.
pub mod History
use koalisi.Common.{
  ℕ, Bool, Option, none, some, List, [], ◌∷◌, ◌++◌, length, drop, ◌==◌, if◌then◌else◌,
}

-- the trait `Sample`, without the timestamp, which monitors do not read
pub record Sampling : Type 1 where
  pub Sample : Type 0
  pub Key : Type 0
  pub View : Type 0
  pub key_of : Sample → Key
  pub view_of : Sample → View
  pub same_key : Key → Key → Bool

module _ (sampling : Sampling) where
  open sampling use {Sample, Key, View, key_of, view_of, same_key}

  pub record SampleMonitor : Type 0 where
    pub key : Key
    pub history : List Sample
    pub history_capacity : ℕ
    pub latest : Option View

  pub record SampleUpdate : Type 0 where
    pub key : Key
    pub view : View

  pub record SampleSnapshot : Type 0 where
    pub key : Key
    pub latest : Option View
    pub history : List Sample

  unfoldable pub new_monitor : Key → ℕ → SampleMonitor
  new_monitor key history_capacity = record {
    key = key;
    history = [];
    history_capacity = history_capacity;
    latest = none;
  }

  -- the monitor after a sample of its own key
  unfoldable pub kept : Sample → SampleMonitor → SampleMonitor
  kept sample m = record m {
    history =
        (if length m.history == m.history_capacity then drop 1 m.history else m.history)
        ++ sample ∷ [];
    latest = some (view_of sample);
  }

  unfoldable pub ingest : Sample → SampleMonitor → SampleMonitor × Option SampleUpdate
  unfolding kept
  ingest sample m =
      if same_key (key_of sample) m.key
      then (kept sample m, some (record { key = m.key; view = view_of sample }))
      else (m, none)

  unfoldable pub snapshot : SampleMonitor → SampleSnapshot
  snapshot m = record { key = m.key; latest = m.latest; history = m.history }

  pub data MonitorCommand : Type 0 where
    told : Sample → MonitorCommand
    fed : Sample → ℕ → MonitorCommand
    asked pinged : ℕ → MonitorCommand

  pub data Reply : Type 0 where
    done : Reply
    shot : SampleSnapshot → Reply

  -- what a round of the loop sees
  pub data Round : Type 0 where
    token_cancelled all_dropped : Round
    received : MonitorCommand → Round

  -- what a command leaves: the monitor, the updates that are published, and the replies
  abbrev pub Served : Type 0
  Served = SampleMonitor × List SampleUpdate × List (ℕ × Reply)

  abbrev pub published : Option SampleUpdate → List SampleUpdate
  published none = []
  published (some update) = update ∷ []

  unfoldable pub obey : MonitorCommand → SampleMonitor → Served
  unfolding ingest snapshot
  obey (told sample) m = let (m', update) = ingest sample m in (m', published update, [])
  obey (fed sample ack) m =
      let (m', update) = ingest sample m in (m', published update, (ack, done) ∷ [])
  obey (asked reply) m = (m, [], (reply, shot (snapshot m)) ∷ [])
  obey (pinged reply) m = (m, [], (reply, done) ∷ [])

  unfoldable pub monitor_loop : List Round → SampleMonitor → Served
  unfolding obey
  monitor_loop [] m = (m, [], [])
  monitor_loop (token_cancelled ∷ later) m = (m, [], [])
  monitor_loop (all_dropped ∷ later) m = (m, [], [])
  monitor_loop (received command ∷ later) m =
      let (m', updates, replies) = obey command m in
      let (last, more, answers) = monitor_loop later m' in
      (last, updates ++ more, replies ++ answers)

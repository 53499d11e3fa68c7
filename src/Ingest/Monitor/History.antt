-- ===== src/Ingest/Monitor/History.antt =====
-- What a monitor holds (src/ingest/monitor.rs).
use koalisi.Common.{
  ℕ, zero, suc, ◌+◌, ◌-◌, ◌≤◌, ◌≡◌, ◌≢◌, refl, ap, sym, ◌∙◌, false, Bool-cases, inl, inr, List, [],
  ◌∷◌, ◌++◌, append-nil, append_assoc, length, length-append, length-drop, drop, drop-append,
  drop-drop, drop-nil, ==_iff, ◌==◌, if◌then◌else◌, arith,
}
use koalisi.Ingest.Monitor.{
  Sampling, SampleMonitor, new_monitor, kept, ingest, MonitorCommand, told, fed, asked, pinged,
  Round, token_cancelled, all_dropped, received, obey, monitor_loop,
}

-- how many of `n` samples a monitor has dropped
abbrev pub dropped : ℕ → ℕ → ℕ
dropped zero n = 0
dropped (suc c) n = n - suc c

module _ (sampling : Sampling) where
  open sampling use {Sample, Key, key_of, same_key}

  -- the samples of a key among those that the loop takes
  abbrev pub own : Key → Sample → List Sample
  own key sample = if same_key (key_of sample) key then sample ∷ [] else []

  abbrev pub sample_of : Key → MonitorCommand sampling → List Sample
  sample_of key (told sample) = own key sample
  sample_of key (fed sample ack) = own key sample
  sample_of key (asked reply) = []
  sample_of key (pinged reply) = []

  abbrev pub taken : Key → List (Round sampling) → List Sample
  taken key [] = []
  taken key (token_cancelled ∷ later) = []
  taken key (all_dropped ∷ later) = []
  taken key (received command ∷ later) = sample_of key command ++ taken key later

  abbrev IsWindow : Key → ℕ → List Sample → SampleMonitor sampling → Type 0
  IsWindow key capacity samples m =
      (m.key ≡ key)
      × (m.history_capacity ≡ capacity)
      × (m.history ≡ drop (dropped capacity (length samples)) samples)

  -- the room that is made for one more sample
  kept-held :
      (capacity : ℕ) (samples held : List Sample)
      → held ≡ drop (dropped capacity (length samples)) samples
      → (if length held == capacity then drop 1 held else held)
        ≡ drop (dropped capacity (length samples + 1)) samples
  kept-held zero [] held h = rw h refl
  kept-held zero (x ∷ samples) held h =
      let some_held : (length (x ∷ samples) == 0) ≡ false = ground arith in rw (h, some_held) refl
  kept-held (suc c) samples held h =
      let long : length held ≡ length samples - (length samples - suc c) =
        ap length h ∙ length-drop (length samples - suc c) samples in
      elim (Bool-cases (length held == suc c)) [
        | inl full ↦
            let exact : length held ≡ suc c = (==_iff (length held) (suc c)).0 full in
            rw (full, h)
              (drop-drop 1 (length samples - suc c) (length samples + 1 - suc c) samples
                (omega arith))
        | inr free ↦
            let other : length held ≢ suc c = λ e. ground arith in
            rw (free, h) (ap (λ n. drop n samples) (omega arith))
      ]

  dropped-le : (capacity n : ℕ) → dropped capacity (n + 1) ≤ n
  dropped-le zero n = omega arith
  dropped-le (suc c) n = omega arith

  kept-IsWindow :
      (key : Key) (capacity : ℕ) (samples : List Sample) (m : SampleMonitor sampling) (s : Sample)
      → IsWindow key capacity samples m
      → IsWindow key capacity (samples ++ s ∷ []) (kept sampling s m)
  unfolding kept
  kept-IsWindow key capacity samples m s (k, c, h) = (
    k,
    c,
    rw (c, kept-held capacity samples m.history h, length-append samples (s ∷ []))
        (sym (
          drop-append (dropped capacity (length samples + 1)) samples (s ∷ [])
            (dropped-le capacity (length samples)))),
  )

  ingest-IsWindow :
      (key : Key) (capacity : ℕ) (samples : List Sample) (m : SampleMonitor sampling) (s : Sample)
      → IsWindow key capacity samples m
      → IsWindow key capacity (samples ++ own key s) (ingest sampling s m).0
  unfolding ingest
  ingest-IsWindow key capacity samples m s (k, c, h) = elim (Bool-cases (same_key (key_of s) key)) [
    | inl mine ↦
        let there = ap (same_key (key_of s)) k ∙ mine in
        rw (mine, there, ingest) (kept-IsWindow key capacity samples m s (k, c, h))
    | inr foreign ↦
        let there = ap (same_key (key_of s)) k ∙ foreign in
        rw (foreign, there, ingest, append-nil) (k, c, h)
  ]

  obey-IsWindow :
      (key : Key) (capacity : ℕ) (samples : List Sample) (m : SampleMonitor sampling)
      (command : MonitorCommand sampling)
      → IsWindow key capacity samples m
      → IsWindow key capacity (samples ++ sample_of key command) (obey sampling command m).0
  unfolding obey
  obey-IsWindow key capacity samples m (told s) h = ingest-IsWindow key capacity samples m s h
  obey-IsWindow key capacity samples m (fed s ack) h = ingest-IsWindow key capacity samples m s h
  obey-IsWindow key capacity samples m (asked reply) h = rw append-nil h
  obey-IsWindow key capacity samples m (pinged reply) h = rw append-nil h

  monitor_loop-IsWindow :
      (key : Key) (capacity : ℕ) (samples : List Sample) (rounds : List (Round sampling))
      (m : SampleMonitor sampling)
      → IsWindow key capacity samples m
      → IsWindow key capacity (samples ++ taken key rounds) (monitor_loop sampling rounds m).0
  unfolding monitor_loop
  monitor_loop-IsWindow key capacity samples [] m h = rw append-nil h
  monitor_loop-IsWindow key capacity samples (token_cancelled ∷ later) m h = rw append-nil h
  monitor_loop-IsWindow key capacity samples (all_dropped ∷ later) m h = rw append-nil h
  monitor_loop-IsWindow key capacity samples (received command ∷ later) m h =
      rw⁻¹ (append_assoc samples (sample_of key command) (taken key later)) (
        monitor_loop-IsWindow key capacity (samples ++ sample_of key command) later
          (obey sampling command m).0 (obey-IsWindow key capacity samples m command h))

  -- The history of a monitor, after any run from its start: the last samples of its key among those
  -- that the loop took, oldest first, as many as its capacity allows. With the capacity 0 it is all
  -- of them: nothing is ever dropped.
  pub monitor_loop-history :
      (key : Key) (capacity : ℕ) (rounds : List (Round sampling))
      → (monitor_loop sampling rounds (new_monitor sampling key capacity)).0.history
        ≡ drop (dropped capacity (length (taken key rounds))) (taken key rounds)
  unfolding new_monitor
  monitor_loop-history key capacity rounds =
      (monitor_loop-IsWindow key capacity [] rounds (new_monitor sampling key capacity)
        (refl, refl, sym (drop-nil (dropped capacity 0)))).2

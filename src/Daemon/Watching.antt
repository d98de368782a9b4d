-- ===== src/Daemon/Watching.antt =====
-- tactus-runtime/src/daemon.rs: the thread that watches a running entry. What it finds in each of its
-- rounds is an argument.
use agenstro.Common.{
  ℕ, suc, ◌≤◌, ◌≡◌, refl, ap, ◌∙◌, inl, inr, Bool, true, false, ◌||◌, not, Result, ok, err, List,
  [], ◌∷◌, arith, Bool-cases, if◌then◌else◌,
}
use agenstro.Common.Text.{Text, lit}
use agenstro.Daemon.{EventLog, record_event, note_escalation, Decision}

-- Whether the wait ended by its timeout, the two tokens before and after the call of the provider,
-- its answer, and whether the line of the log could be written.
pub record Watch : Type 0 where
  pub timed_out : Bool
  pub cancelled : Bool
  pub response : Result Text Decision
  pub cancelled_after : Bool
  pub wrote : Bool

abbrev pub answer : Watch → EventLog → Result Text Decision → EventLog
answer w log (ok (Decision.continue s)) = (record_event (lit "daemon.observed") w.wrote log).0
answer w log (ok (Decision.escalate s)) = note_escalation w.wrote log
answer w log (ok (Decision.repair s old new)) = note_escalation w.wrote log
answer w log (err e) = note_escalation w.wrote log

-- The log afterwards, and how often the provider was called.
unfoldable pub watch : List Watch → EventLog → EventLog × ℕ
watch [] log = (log, 0)
watch (w ∷ ws) log =
    let log' = answer w log w.response in
    let rest = watch ws log' in
    let more : EventLog × ℕ = (rest.0, suc rest.1) in
    if not w.timed_out || w.cancelled || log.escalated
    then (log, 0)
    else if w.cancelled_after
    then (log, 1)
    else if log'.escalated
    then (log', 1)
    else more

-- `Daemon::monitor`, which notes that the entry was started.
unfoldable pub monitor : Bool → List Watch → EventLog → EventLog × ℕ
monitor wrote ws log = watch ws (record_event (lit "daemon.script_started") wrote log).0

abbrev pub is_continue : Result Text Decision → Bool
is_continue (ok (Decision.continue s)) = true
is_continue _ = false

-- The rounds before the first answer that is not `continue`.
abbrev pub quiet_rounds : List Watch → ℕ
quiet_rounds [] = 0
quiet_rounds (w ∷ ws) = if is_continue w.response then suc (quiet_rounds ws) else 0

answer_escalates :
    (w : Watch) (log : EventLog) (q : Result Text Decision)
    → log.escalated ≡ false
    → (answer w log q).escalated ≡ not (is_continue q)
unfolding note_escalation record_event
answer_escalates w log (ok (Decision.continue s)) h = h
answer_escalates w log (ok (Decision.escalate s)) h = refl
answer_escalates w log (ok (Decision.repair s old new)) h = refl
answer_escalates w log (err e) h = refl

escalated-calls :
    (ws : List Watch) (log : EventLog) → log.escalated ≡ true → watch ws log ≡ (log, 0)
unfolding watch
escalated-calls [] log h = refl
escalated-calls (w ∷ ws) log h = rw h (ground arith)

module _ (w : Watch) (ws : List Watch) (log : EventLog) where
  abbrev later : EventLog × ℕ
  later =
      let log' = answer w log w.response in
      let rest = watch ws log' in
      let more : EventLog × ℕ = (rest.0, suc rest.1) in if log'.escalated then (log', 1) else more

  later_bound :
      log.escalated ≡ false
      → ((answer w log w.response).escalated ≡ false
          → (watch ws (answer w log w.response)).1 ≤ suc (quiet_rounds ws))
      → later.1 ≤ suc (quiet_rounds (w ∷ ws))
  later_bound h rec = elim (Bool-cases (is_continue w.response)) [
    | inl goes ↦
        let quiet : (answer w log w.response).escalated ≡ false =
          answer_escalates w log w.response h ∙ ap not goes in
        rw (quiet, goes) (omega (arith, rec quiet))
    | inr stops ↦ rw (answer_escalates w log w.response h ∙ ap not stops, stops) (omega arith)
  ]

calls_bound :
    (ws : List Watch) (log : EventLog)
    → log.escalated ≡ false
    → (watch ws log).1 ≤ suc (quiet_rounds ws)
unfolding watch
calls_bound [] log h = omega arith
calls_bound (w ∷ ws) log h =
    by_tokens (not w.timed_out || w.cancelled || log.escalated) w.cancelled_after
      (λ k. calls_bound ws (answer w log w.response) k)
  where
    by_tokens :
        (a b : Bool)
        → ((answer w log w.response).escalated ≡ false
            → (watch ws (answer w log w.response)).1 ≤ suc (quiet_rounds ws))
        → (if a then (log, 0) else if b then (log, 1) else later w ws log).1
          ≤ suc (quiet_rounds (w ∷ ws))
    by_tokens true b rec = omega arith
    by_tokens false true rec = omega arith
    by_tokens false false rec = later_bound w ws log h rec

-- However many rounds there are, the provider is asked no further after an answer that is not
-- `continue`, and not at all once the log is escalated.
pub monitor-calls :
    (wrote : Bool) (ws : List Watch) (log : EventLog)
    → (log.escalated ≡ true → (monitor wrote ws log).1 ≡ 0)
      × (log.escalated ≡ false → (monitor wrote ws log).1 ≤ suc (quiet_rounds ws))
unfolding monitor record_event
monitor-calls wrote ws log = (λ h. ap (λ q. q.1) (escalated-calls ws _ h), λ h. calls_bound ws _ h)

-- ===== src/Node/Logging/Laws.antt =====
-- The counters of the service can be read off its log.
use mathlib.Core.List.{map-append, append_assoc, append-nil}
use asset_tracker.Prelude.{
  ℕ, ◌+◌, ◌≡◌, refl, sym, ap, ◌∙◌, Option, none, some, List, [], ◌∷◌, ◌++◌, map, String, length,
  leb, arith, All, subst, if◌then◌else◌, Bool-cases, inl, inr,
}
use asset_tracker.Api.Metrics.{RequestTrace}
use asset_tracker.Node.Metrics.{new_metrics, push_trace, increment_request, increment_error}
use asset_tracker.Node.Server.{Url, Request, is_infra_path, count_request, trace_of, finish}
use asset_tracker.Node.Server.Counting.{count_business, count_errors}
use asset_tracker.Node.Server.Counting
use asset_tracker.Node.Logging.{
  LogLine, log_line, logging_middleware, Traffic, arrive, complete, Step, arrives, finishes,
  Reachable, started, next,
}

-- What a trace and a line of the log have in common: method, path and status.
abbrev pub Seen : Type 0
Seen = String × String × ℕ

abbrev pub seen_trace : RequestTrace → Seen
seen_trace t = (t.method, t.path, t.status)

abbrev pub failed_seen : List Seen → ℕ
failed_seen [] = 0
failed_seen ((m, p, status) ∷ xs) = (if leb 400 status then 1 else 0) + failed_seen xs

abbrev pub seen_at : LogLine → Option Url → List Seen
seen_at l none = []
seen_at l (some u) = if is_infra_path u then [] else (l.method, u.pathname, l.status_code) ∷ []

module _ (parse_url : String → Option Url) where
  -- The lines of the log that are no probes.
  abbrev pub business_lines : List LogLine → List Seen
  business_lines [] = []
  business_lines (l ∷ ls) = seen_at l (parse_url l.url) ++ business_lines ls

  business_lines-append :
      (ls ms : List LogLine) → business_lines (ls ++ ms) ≡ business_lines ls ++ business_lines ms
  business_lines-append [] ms = refl
  business_lines-append (l ∷ ls) ms =
      ap (λ r. seen_at l (parse_url l.url) ++ r) (business_lines-append ls ms)
      ∙ sym (append_assoc (seen_at l (parse_url l.url)) (business_lines ls) (business_lines ms))

  abbrev IsParsed : Request × Url → Type 0
  IsParsed (q, u) = parse_url q.url ≡ some u

  record IsLogged (s : Traffic) : Type 0 where
    parsed : All IsParsed s.open_requests
    traced : map seen_trace s.metrics.traces ≡ business_lines s.log

  All-middle :
      (xs ys : List (Request × Url)) (x : Request × Url)
      → All IsParsed (xs ++ x ∷ ys)
      → IsParsed x × All IsParsed (xs ++ ys)
  All-middle [] ys x h = h
  All-middle (y ∷ xs) ys x (p, h) = let (here, rest) = All-middle xs ys x h in (here, (p, rest))

  traced_after :
      (q : Request) (u : Url) (status ms logged : ℕ) (now : String) (s : Traffic)
      → parse_url q.url ≡ some u
      → map seen_trace s.metrics.traces ≡ business_lines s.log
      → map seen_trace (complete q u status ms logged now s).metrics.traces
        ≡ business_lines (complete q u status ms logged now s).log
  unfolding complete finish logging_middleware push_trace increment_error
  traced_after q u status ms logged now s good same = ground (
    arith,
    good,
    same,
    business_lines-append s.log (log_line q status logged ∷ []),
    map-append seen_trace s.metrics.traces (trace_of u q.method status ms now ∷ []),
    append-nil (business_lines s.log),
  )

  Step-IsLogged : {s t : Traffic} → Step parse_url s t → IsLogged s → IsLogged t
  unfolding arrive count_request increment_request
  Step-IsLogged {s} (arrives q u good) h = elim (Bool-cases (is_infra_path u)) [
    | inl probe ↦ rw probe (record { parsed = (good, h.parsed); traced = h.traced })
    | inr business ↦ rw business (record { parsed = (good, h.parsed); traced = h.traced })
  ]
  Step-IsLogged {s} (finishes before after q u status ms logged now e) h =
      let (good, rest) = All-middle before after (q, u) (subst (All IsParsed) e h.parsed) in
      record { parsed = rest; traced = traced_after q u status ms logged now s good h.traced }

  Reachable-IsLogged : {s : Traffic} → Reachable parse_url s → IsLogged s
  unfolding new_metrics
  Reachable-IsLogged started = record { parsed = tt; traced = refl }
  Reachable-IsLogged (next r st) = Step-IsLogged st (Reachable-IsLogged r)

abbrev pub urls : List (Request × Url) → List Url
urls = map (λ x. x.1)

-- The same traffic, without its log.
abbrev counted : Traffic → Counting.Traffic
counted s = record { metrics = s.metrics; open_requests = urls s.open_requests }

failed_seen-count_errors :
    (ts : List RequestTrace) → count_errors ts ≡ failed_seen (map seen_trace ts)
failed_seen-count_errors [] = refl
failed_seen-count_errors (t ∷ ts) = ground (arith, failed_seen-count_errors ts)

length-seen_trace : (ts : List RequestTrace) → length (map seen_trace ts) ≡ length ts
length-seen_trace [] = refl
length-seen_trace (t ∷ ts) = ground (arith, length-seen_trace ts)

module _ (parse_url : String → Option Url) where
  counted-Step :
      {s t : Traffic}
      → Step parse_url s t
      → Counting.Reachable (counted s)
      → Counting.Reachable (counted t)
  unfolding arrive complete
  counted-Step (arrives q u good) r = Counting.next r (Counting.arrives u)
  counted-Step {s} (finishes before after q u status ms logged now e) r =
      let m = finish u q.method status ms now s.metrics in
      subst (λ us. Counting.Reachable (record { metrics = m; open_requests = us }))
        (sym (map-append (λ x. x.1) before after))
        (Counting.next r (
          Counting.finishes (urls before) (urls after) u q.method now status ms
            (ap urls e ∙ map-append (λ x. x.1) before ((q, u) ∷ after))))

  counted-Reachable : {s : Traffic} → Reachable parse_url s → Counting.Reachable (counted s)
  counted-Reachable started = Counting.started
  counted-Reachable (next r st) = counted-Step st (counted-Reachable r)

  -- Whatever requests arrive and finish, in any order: leaving out the probes for health and metrics,
  -- the log has the same methods, paths and statuses as the traces, in the same order. So the
  -- counters can be read off the log: the total of requests is the number of these lines and of the
  -- open requests that are no probes, and the total of errors is the number of these lines with a
  -- status of 400 or more.
  pub Reachable-business_lines :
      {s : Traffic}
      → Reachable parse_url s
      → (map seen_trace s.metrics.traces ≡ business_lines parse_url s.log)
        × (s.metrics.requests
            ≡ length (business_lines parse_url s.log) + count_business (urls s.open_requests))
        × (s.metrics.errors ≡ failed_seen (business_lines parse_url s.log))
  Reachable-business_lines {s} r =
      let same = (Reachable-IsLogged parse_url r).traced in
      let c = Counting.Reachable-IsCounted (counted-Reachable r) in
      (
        same,
        c.requests_counted
            ∙ ap (λ n. n + count_business (urls s.open_requests))
                (sym (length-seen_trace s.metrics.traces) ∙ ap length same),
        c.errors_counted ∙ failed_seen-count_errors s.metrics.traces ∙ ap failed_seen same,
      )

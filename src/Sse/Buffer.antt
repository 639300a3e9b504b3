-- ===== src/Sse/Buffer.antt =====
-- What `feed` of crates/earl-protocol-http/src/sse.rs leaves in the buffer.
use earl.Prelude.{
  ℕ, zero, suc, ◌<◌, ◌≡◌, ap, none, some, ◌++◌, arith, length, Option-cases, inl, inr,
}
use earl.Text.{Text, split_once}
use earl.Text.Laws.{length-split_once}
use earl.Text.Scan.{scan, Shortens}
use earl.Sse.{SseParser, lf_lf, crlf_crlf, next_boundary, feed_step, feed}

next_boundary-shorter :
    (buffer block rest : Text)
    → next_boundary buffer ≡ some (block, rest)
    → length rest < length buffer
unfolding next_boundary
next_boundary-shorter buffer block rest h = elim (Option-cases (split_once lf_lf buffer)) [
  | inr ((b, r), e) ↦
      (let cut = length-split_once lf_lf buffer b r e in
        let same : r ≡ rest = ground arith in omega (arith, ap length same))
  | inl e ↦ (let cut = length-split_once crlf_crlf buffer block rest (ground arith) in omega arith)
]

pub feed_step-Shortens : Shortens feed_step
unfolding feed_step
feed_step-Shortens s found rest h = elim (Option-cases (next_boundary s)) [
  | inl e ↦ absurd (ground arith)
  | inr ((block, r), e) ↦
      (let less = next_boundary-shorter s block r e in
        let same : r ≡ rest = ground arith in omega (arith, ap length same))
]

-- A scan on enough fuel stops where its step does.
scan_stops : (f : ℕ) (s : Text) → length s < f → feed_step (scan feed_step f s).1 ≡ none
unfolding scan
scan_stops zero s h = elim h [ ]
scan_stops (suc f) s h = elim (Option-cases (feed_step s)) [
  | inl e ↦ rw (e, scan) e
  | inr ((found, rest), e) ↦
      (let less = feed_step-Shortens s found rest e in
        rw (e, scan) (scan_stops f rest (omega arith)))
]

boundary_of_step : (s : Text) → feed_step s ≡ none → next_boundary s ≡ none
unfolding feed_step
boundary_of_step s h = ground arith

-- After each call no complete event is left: the buffer holds no boundary of either kind.
next_boundary-feed :
    (parser : SseParser) (input : Text) → next_boundary (feed parser input).1.buffer ≡ none
unfolding feed
next_boundary-feed parser input =
    boundary_of_step
      (scan feed_step (suc (length (parser.buffer ++ input))) (parser.buffer ++ input)).1
      (scan_stops (suc (length (parser.buffer ++ input))) (parser.buffer ++ input) (omega arith))

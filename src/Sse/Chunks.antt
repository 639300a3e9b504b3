-- ===== src/Sse/Chunks.antt =====
-- How a stream is cut into chunks does not matter to `feed` of
-- crates/earl-protocol-http/src/sse.rs, as long as the stream has no carriage return.
use mathlib.Core.List.{append_assoc, append-nil}
use earl.Prelude.{
  ℕ, zero, suc, ◌<◌, ◌≤◌, ◌≡◌, refl, sym, ap, ◌∙◌, subst, ◌≢◌, none, some, List, [], ◌∷◌, ◌++◌,
  arith, length, Option-cases, inl, inr, All, All-append, All-append_left, All-append_right,
}
use earl.Text.{Text, split_once, strip_prefix}
use earl.Text.Laws.{length-split_once, split_once-eq_some}
use earl.Text.Scan.{scan_all, scan_all_lem}
use earl.Sse.{SseEvent, SseParser, lf_lf, crlf_crlf, next_boundary, feed_step, feed}
use earl.Sse.Buffer.{feed_step-Shortens}

abbrev pub NoCr : Text → Type 0
NoCr s = All (λ c. c ≢ 13) s

no_crlf : (s : Text) → NoCr s → split_once crlf_crlf s ≡ none
unfolding split_once
no_crlf [] h = refl
no_crlf (c ∷ s) (d, h) = ground (arith, no_crlf s h)

next_boundary-NoCr : (s : Text) → NoCr s → next_boundary s ≡ split_once lf_lf s
unfolding next_boundary
next_boundary-NoCr s h = ground (arith, no_crlf s h)

-- An occurrence stays the first one when the text gets longer.
strip_prefix-longer :
    (p s t r : Text) → strip_prefix p s ≡ some r → strip_prefix p (s ++ t) ≡ some (r ++ t)
unfolding strip_prefix
strip_prefix-longer [] s t r h = ground arith
strip_prefix-longer (a ∷ p) [] t r h = absurd (ground arith)
strip_prefix-longer (a ∷ p) (b ∷ s) t r h = ground (arith, strip_prefix-longer p s t r)

strip_prefix-not_longer :
    (p s t : Text) → length p ≤ length s → strip_prefix p s ≡ none → strip_prefix p (s ++ t) ≡ none
unfolding strip_prefix
strip_prefix-not_longer [] s t l h = absurd (ground arith)
strip_prefix-not_longer (a ∷ p) [] t l h = elim l [ ]
strip_prefix-not_longer (a ∷ p) (b ∷ s) t l h = ground (arith, strip_prefix-not_longer p s t)

split_once-longer :
    (x : ℕ) (q s t before after : Text)
    → split_once (x ∷ q) s ≡ some (before, after)
    → split_once (x ∷ q) (s ++ t) ≡ some (before, after ++ t)
unfolding split_once
split_once-longer x q [] t before after h = absurd (ground arith)
split_once-longer x q (c ∷ s) t before after h =
    elim (Option-cases (strip_prefix (x ∷ q) (c ∷ s))) [
      | inr (r, e) ↦ (let longer = strip_prefix-longer (x ∷ q) (c ∷ s) t r e in ground arith)
      | inl e ↦ elim (Option-cases (split_once (x ∷ q) s)) [
        | inl f ↦ absurd (ground arith)
        | inr ((b, a), f) ↦
            (let ih = split_once-longer x q s t b a f in
              let size = length-split_once (x ∷ q) s b a f in
              let not_here = strip_prefix-not_longer (x ∷ q) (c ∷ s) t (omega arith) e in
              ground arith)
      ]
    ]

feed_step-longer :
    (s t rest : Text) (found : List SseEvent)
    → NoCr (s ++ t)
    → feed_step s ≡ some (found, rest)
    → (feed_step (s ++ t) ≡ some (found, rest ++ t)) × NoCr (rest ++ t)
unfolding feed_step
feed_step-longer s t rest found u h = elim (Option-cases (split_once lf_lf s)) [
  | inl e ↦
      (let none_here = next_boundary-NoCr s (All-append_left _ s t u) in absurd (ground arith))
  | inr ((block, after), e) ↦
      (let here = next_boundary-NoCr s (All-append_left _ s t u) in
        let there = next_boundary-NoCr (s ++ t) u in
        let longer = split_once-longer 10 (10 ∷ []) s t block after e in
        let same : after ≡ rest = ground arith in
        let whole = split_once-eq_some lf_lf s block after e in
        (
          ground arith,
          subst (λ r. NoCr (r ++ t)) same
              (All-append _ after t
                (All-append_right _ lf_lf after (
                  All-append_right _ block (lf_lf ++ after)
                    (subst NoCr whole (All-append_left _ s t u))))
                (All-append_right _ s t u)),
        ))
]

abbrev drain : Text → List SseEvent × Text
drain s = scan_all feed_step s

-- Draining a text and what comes after it, or all of it at once.
drain-append :
    (f : ℕ) (s t : Text)
    → length s < f
    → NoCr (s ++ t)
    → drain (s ++ t) ≡ ((drain s).0 ++ (drain ((drain s).1 ++ t)).0, (drain ((drain s).1 ++ t)).1)
drain-append zero s t l u = absurd (omega arith)
drain-append (suc f) s t l u = elim (Option-cases (feed_step s)) [
  | inl e ↦ rw (scan_all_lem feed_step s feed_step-Shortens, e)
  | inr ((found, rest), e) ↦
      (let (longer, v) = feed_step-longer s t rest found u e in
        let less = feed_step-Shortens s found rest e in
        let ih = drain-append f rest t (omega arith) v in
        let one = scan_all_lem feed_step s feed_step-Shortens in
        let two = scan_all_lem feed_step (s ++ t) feed_step-Shortens in
        let joined = append_assoc found (drain rest).0 (drain ((drain rest).1 ++ t)).0 in
        rw (one, e, two, longer, ih, joined))
]

-- Draining leaves no carriage return where there was none.
drain-NoCr : (f : ℕ) (s : Text) → length s < f → NoCr s → NoCr (drain s).1
drain-NoCr zero s l u = absurd (omega arith)
drain-NoCr (suc f) s l u = elim (Option-cases (feed_step s)) [
  | inl e ↦ rw (scan_all_lem feed_step s feed_step-Shortens, e) u
  | inr ((found, rest), e) ↦
      (let (_, v) = feed_step-longer s [] rest found (All-append _ s [] u tt) e in
        let less = feed_step-Shortens s found rest e in
        rw (scan_all_lem feed_step s feed_step-Shortens, e)
          (drain-NoCr f rest (omega arith) (All-append_left _ rest [] v)))
]

-- A parser that is fed chunk after chunk, with the events of all calls in order.
abbrev pub feed_all : SseParser → List Text → List SseEvent × SseParser
feed_all parser [] = ([], parser)
feed_all parser (chunk ∷ chunks) =
    let (events, next) = feed parser chunk in
    let (more, last) = feed_all next chunks in (events ++ more, last)

abbrev pub concat : List Text → Text
concat [] = []
concat (chunk ∷ chunks) = chunk ++ concat chunks

feed-append :
    (parser : SseParser) (s t : Text)
    → NoCr (parser.buffer ++ (s ++ t))
    → feed parser (s ++ t)
      ≡ ((feed parser s).0 ++ (feed (feed parser s).1 t).0, (feed (feed parser s).1 t).1)
unfolding feed
feed-append parser s t u =
    let same = append_assoc parser.buffer s t in
    let all =
      drain-append (suc (length (parser.buffer ++ s))) (parser.buffer ++ s) t (omega arith)
        (subst NoCr (sym same) u) in
    rw (← same, all)

feed-NoCr :
    (parser : SseParser) (s : Text) → NoCr (parser.buffer ++ s) → NoCr (feed parser s).1.buffer
unfolding feed
feed-NoCr parser s u =
    drain-NoCr (suc (length (parser.buffer ++ s))) (parser.buffer ++ s) (omega arith) u

-- A stream without carriage returns gives the same events, and leaves the same buffer, however it
-- is cut into chunks: feeding the chunks one by one is feeding their concatenation at once.
pub feed_all-concat :
    (parser : SseParser) (chunk : Text) (chunks : List Text)
    → NoCr (parser.buffer ++ (chunk ++ concat chunks))
    → feed_all parser (chunk ∷ chunks) ≡ feed parser (chunk ++ concat chunks)
feed_all-concat parser chunk [] u = rw (append-nil chunk, append-nil (feed parser chunk).0)
feed_all-concat parser chunk (next ∷ chunks) u =
    let u' = subst NoCr (sym (append_assoc parser.buffer chunk (next ++ concat chunks))) u in
    let left = All-append_left _ (parser.buffer ++ chunk) (next ++ concat chunks) u' in
    let right = All-append_right _ (parser.buffer ++ chunk) (next ++ concat chunks) u' in
    let rest = feed_all-concat (feed parser chunk).1 next chunks (
      All-append _ (feed parser chunk).1.buffer (next ++ concat chunks)
        (feed-NoCr parser chunk left) right) in
    let split = feed-append parser chunk (next ++ concat chunks) u in
    ap (λ (r : List SseEvent × SseParser). ((feed parser chunk).0 ++ r.0, r.1)) rest ∙ sym split

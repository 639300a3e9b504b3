-- ===== src/Sse/Tests.antt =====
-- Streams of crates/earl-protocol-http/src/sse.rs, after its own tests, and instances of the
-- theorems.
use earl.Prelude.{◌≡◌, refl, none, some, [], ◌∷◌, ◌++◌, arith}
use earl.Text.{Text, codes}
use earl.Sse.{SseEvent, new, feed, flush, lf_lf, crlf_crlf}
use earl.Sse.Chunks.{feed_all, concat, feed_all-concat}

abbrev event : Text → SseEvent
event s = record { event_type = none; data_text = s; id = none }

abbrev hello : Text
hello = codes "data: hello world" ++ lf_lf

hello_test : (feed new hello).0 ≡ event (codes "hello world") ∷ []
unfolding feed
hello_test = refl

flush_test : (flush (feed new (codes "data: trailing")).1).0 ≡ some (event (codes "trailing"))
unfolding feed flush
flush_test = refl

abbrev crlf_event : Text
crlf_event = codes "data: a" ++ crlf_crlf

abbrev lf_event : Text
lf_event = codes "data: b" ++ lf_lf

-- Where both kinds of boundary are in the buffer, the search for two line feeds comes first: fed
-- apart the two events are two, fed at once they are one.
mixed_apart :
    (feed_all new (crlf_event ∷ lf_event ∷ [])).0 ≡ event (codes "a") ∷ event (codes "b") ∷ []
unfolding feed
mixed_apart = refl

mixed_at_once : (feed new (crlf_event ++ lf_event)).0 ≡ event (codes "a" ++ 10 ∷ codes "b") ∷ []
unfolding feed
mixed_at_once = refl

feed_all-concat_example :
    feed_all new (codes "data: hel" ∷ (codes "lo" ++ 10 ∷ []) ∷ (10 ∷ []) ∷ [])
    ≡ feed new (codes "data: hel" ++ concat ((codes "lo" ++ 10 ∷ []) ∷ (10 ∷ []) ∷ []))
feed_all-concat_example =
    feed_all-concat new (codes "data: hel") ((codes "lo" ++ 10 ∷ []) ∷ (10 ∷ []) ∷ []) (omega arith)

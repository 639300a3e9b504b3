-- ===== src/Sse.antt =====
-- The parser of server-sent events: crates/earl-protocol-http/src/sse.rs. `SseParser` is its buffer;
-- a method returns the new buffer beside its result. The loop of `feed` runs on the fuel of
-- Text/Scan.
pub mod Buffer
pub mod Chunks
mod Tests
use earl.Prelude.{
  ℕ, Bool, true, false, Option, none, some, List, [], ◌∷◌, ◌++◌, ◌==◌, if◌then◌else◌, is_empty,
}
use earl.Text.{Text, codes, strip_prefix, starts_with, split_once, trim}
use earl.Text.Scan.{Step, scan_all}

pub record SseEvent : Type 0 where
  pub event_type : Option Text
  pub data_text : Text
  pub id : Option Text

pub record SseParser : Type 0 where
  pub buffer : Text

abbrev pub new : SseParser
new = record { buffer = [] }

-- `str::lines`: a line ends at a line feed, with a carriage return in front of it or without.
append_first : ℕ → List Text → List Text
append_first c [] = (c ∷ []) ∷ []
append_first c (line ∷ more) = (c ∷ line) ∷ more

split_inclusive : Text → List Text
unfolding append_first
split_inclusive [] = []
split_inclusive (c ∷ s) =
    let rest = split_inclusive s in if c == 10 then (c ∷ []) ∷ rest else append_first c rest

keep_char : ℕ → Option Text → Option Text
keep_char c none = none
keep_char c (some s) = some (c ∷ s)

strip_last : ℕ → Text → Option Text
unfolding keep_char
strip_last x [] = none
strip_last x (c ∷ []) = if c == x then some [] else none
strip_last x (c ∷ d ∷ s) = keep_char c (strip_last x (d ∷ s))

line_content : Text → Text
unfolding strip_last
line_content line = elim (strip_last 10 line) [
  | none ↦ line
  | some cut ↦ elim (strip_last 13 cut) [ none ↦ cut | some shorter ↦ shorter ]
]

map_lines : List Text → List Text
unfolding line_content
map_lines [] = []
map_lines (line ∷ more) = line_content line ∷ map_lines more

unfoldable pub lines : Text → List Text
unfolding split_inclusive map_lines
lines s = map_lines (split_inclusive s)

-- The variables of `parse_block`.
pub record BlockState : Type 0 where
  pub data_lines : List Text
  pub event_type : Option Text
  pub id : Option Text

-- `rest.strip_prefix(' ').unwrap_or(rest)`.
unfoldable pub field_value : Text → Text
unfolding strip_prefix
field_value rest = elim (strip_prefix (codes " ") rest) [ none ↦ rest | some value ↦ value ]

unfoldable pub parse_line : BlockState → Text → BlockState
unfolding starts_with strip_prefix field_value
parse_line st line =
    if starts_with (codes ":") line then st else elim (strip_prefix (codes "data:") line) [
      | some rest ↦ record st { data_lines = st.data_lines ++ field_value rest ∷ [] }
      | none ↦ elim (strip_prefix (codes "event:") line) [
        | some rest ↦ record st { event_type = some (field_value rest) }
        | none ↦ elim (strip_prefix (codes "id:") line) [
          | some rest ↦ record st { id = some (field_value rest) }
          | none ↦ st
        ]
      ]
    ]

unfoldable pub parse_lines : BlockState → List Text → BlockState
unfolding parse_line
parse_lines st [] = st
parse_lines st (line ∷ more) = parse_lines (parse_line st line) more

-- `join("\n")`.
unfoldable pub join_lines : List Text → Text
join_lines [] = []
join_lines (line ∷ []) = line
join_lines (line ∷ next ∷ more) = line ++ (10 ∷ join_lines (next ∷ more))

abbrev pub start : BlockState
start = record { data_lines = []; event_type = none; id = none }

abbrev pub finish_block : BlockState → Option SseEvent
finish_block st =
    if is_empty st.data_lines
    then none
    else some
        (record { event_type = st.event_type; data_text = join_lines st.data_lines; id = st.id })

unfoldable pub parse_block : Text → Option SseEvent
unfolding lines parse_lines join_lines
parse_block block = finish_block (parse_lines start (lines block))

abbrev pub lf_lf : Text
lf_lf = 10 ∷ 10 ∷ []

abbrev pub crlf_crlf : Text
crlf_crlf = 13 ∷ 10 ∷ 13 ∷ 10 ∷ []

-- The block in front of the next boundary, and the buffer behind it.
unfoldable pub next_boundary : Text → Option (Text × Text)
unfolding split_once
next_boundary buffer = elim (split_once lf_lf buffer) [
  | some cut ↦ some cut
  | none ↦ split_once crlf_crlf buffer
]

abbrev pub event_list : Option SseEvent → List SseEvent
event_list none = []
event_list (some event) = event ∷ []

unfoldable pub feed_step : Step SseEvent
unfolding next_boundary parse_block
feed_step buffer = elim (next_boundary buffer) [
  | none ↦ none
  | some (block, rest) ↦ some (event_list (parse_block block), rest)
]

unfoldable pub feed : SseParser → Text → List SseEvent × SseParser
unfolding scan_all feed_step
feed parser input =
    let (events, rest) = scan_all feed_step (parser.buffer ++ input) in
    (events, record { buffer = rest })

unfoldable pub flush : SseParser → Option SseEvent × SseParser
unfolding trim parse_block
flush parser =
    let block = trim parser.buffer in
    (if is_empty block then none else parse_block block, record { buffer = [] })

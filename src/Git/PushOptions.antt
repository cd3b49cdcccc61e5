-- ===== src/Git/PushOptions.antt =====
-- mod/git/receive.go: the loop over the push options of the proc-receive protocol, and how much of its
-- input a frame takes.
use marketplace_server.Base.{
  [], ◌∷◌, arith, inl, inr, zero, suc, Bool, List, Option, ℕ, eqb, err, false, length, ◌≡◌, ok,
  some, true, ◌<◌, ◌||◌, ◌≤◌, Result-cases, if◌then◌else◌, ◌+◌, Option-cases, any, ◌-◌,
}
use marketplace_server.Git.PktLine.{
  Frame, read_full, read_pkt_line, trim_newline, line, of_length, payload, flush, parse_hex,
}
use mathlib.Core.Option.{none}

-- How the loop ends: after a flush, with the rest of the input, or with an error. `out_of_fuel` is no
-- end of the loop in Go.
pub data OptionsEnd : Type 0 where
  flushed : List ℕ → OptionsEnd
  read_failed invalid_option out_of_fuel : OptionsEnd

-- A byte of "\x00\r\n".
abbrev pub is_forbidden : ℕ → Bool
is_forbidden c = eqb c 0 || eqb c 13 || eqb c 10

-- `consumeProcReceivePushOptions`, of so many rounds at most.
unfoldable pub consume_push_options : ℕ → List ℕ → OptionsEnd
consume_push_options zero input = out_of_fuel
consume_push_options (suc fuel) input = elim (read_pkt_line input) [
  | err x ↦ read_failed
  | ok (flush, rest) ↦ flushed rest
  | ok (line option, rest) ↦
      (let others = consume_push_options fuel rest in
        if any is_forbidden option then invalid_option else others)
]

abbrev pub is_answered : OptionsEnd → Bool
is_answered out_of_fuel = false
is_answered _ = true

read_full-length :
    (n : ℕ) (input l rest : List ℕ)
    → read_full n input ≡ some (l, rest)
    → (length l ≡ n) × (length input ≡ n + length rest)
unfolding read_full
read_full-length zero input l rest h = (ground arith, ground arith)
read_full-length (suc n) [] l rest h = absurd (cc h)
read_full-length (suc n) (b ∷ input) l rest h = elim (Option-cases (read_full n input)) [
  | inl q ↦ absurd (ground arith)
  | inr ((m, after), q) ↦ ground (arith, read_full-length n input m after q)
]

trim_newline-length : (l : List ℕ) → length (trim_newline l) ≤ length l
unfolding trim_newline
trim_newline-length [] = omega arith
trim_newline-length (b ∷ l) = ground (arith, trim_newline-length l)

abbrev pub frame_length : Frame → ℕ
frame_length flush = 0
frame_length (line l) = length l

payload-length :
    (n : ℕ) (input rest : List ℕ) (f : Frame)
    → payload (read_full n input) ≡ ok (f, rest)
    → (frame_length f ≤ n) × (n + length rest ≡ length input)
payload-length n input rest f h = elim (Option-cases (read_full n input)) [
  | inl q ↦ absurd (ground arith)
  | inr ((l, after), q) ↦
      (let (size, taken) = read_full-length n input l after q in
        (ground (arith, trim_newline-length l), ground arith))
]

of_length-length :
    (o : Option ℕ) (input rest : List ℕ) (f : Frame)
    → of_length o input ≡ ok (f, rest)
    → (frame_length f ≤ 65516) × (frame_length f + length rest ≤ length input)
of_length-length none input rest f h = absurd (cc h)
of_length-length (some n) input rest f h = ground (arith, payload-length (n - 4) input rest f)

-- A frame that was read has a payload of at most 65516 bytes, and it took at least four bytes more
-- from the input than the payload has.
pub read_pkt_line-length :
    (input rest : List ℕ) (f : Frame)
    → read_pkt_line input ≡ ok (f, rest)
    → (frame_length f ≤ 65516) × (frame_length f + length rest + 4 ≤ length input)
unfolding read_pkt_line
read_pkt_line-length input rest f h = elim (Option-cases (read_full 4 input)) [
  | inl q ↦ absurd (ground arith)
  | inr ((header, after), q) ↦ ground (
    arith,
    read_full-length 4 input header after q,
    of_length-length (parse_hex 0 header) after rest f,
  )
]

-- The loop over the push options ends on every input: as many rounds as the input has bytes, and one
-- more, reach a flush or an error.
pub consume_push_options-is_answered :
    (fuel : ℕ) (input : List ℕ)
    → length input < fuel
    → is_answered (consume_push_options fuel input) ≡ true
unfolding consume_push_options
consume_push_options-is_answered zero input h = absurd (omega arith)
consume_push_options-is_answered (suc fuel) input h = elim (Result-cases (read_pkt_line input)) [
  | inl ((flush, rest), q) ↦ ground arith
  | inl ((line option, rest), q) ↦ ground (
    arith,
    read_pkt_line-length input rest (line option) q,
    consume_push_options-is_answered fuel rest,
  )
  | inr (x, q) ↦ ground arith
]

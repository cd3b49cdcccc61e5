-- ===== src/Git/PktLine.antt =====
-- mod/git/receive.go: `readPktLine` and `formatPktLine`, the frames of the proc-receive protocol.
use marketplace_server.Base.{
  [], ◌∷◌, ◌++◌, zero, suc, ◌+◌, ◌-◌, ◌*◌, ◌/◌, ◌%◌, refl, List, Option, ℕ, Bool, Result,
  if◌then◌else◌, length, some, ◌<◌, ◌≡◌, arith, eqb, err, leb, ltb, none, true, ◌&&◌, ◌≤◌, ap,
  false, ok, ◌||◌, ◌∙◌,
}

pub data PktError : Type 0 where
  end_of_input invalid_length : PktError

-- What a frame holds: a flush, or a payload.
pub data Frame : Type 0 where
  flush : Frame
  line : List ℕ → Frame

unfoldable pub hex_digit : ℕ → ℕ
hex_digit d = if ltb d 10 then 48 + d else 87 + d

-- One digit of `strconv.ParseUint` in base 16.
unfoldable pub hex_value : ℕ → Option ℕ
hex_value c =
    if leb 48 c && leb c 57
    then some (c - 48)
    else if leb 97 c && leb c 102
    then some (c - 87)
    else if leb 65 c && leb c 70
    then some (c - 55)
    else none

unfoldable pub parse_hex : ℕ → List ℕ → Option ℕ
parse_hex acc [] = some acc
parse_hex acc (c ∷ cs) = elim (hex_value c) [ none ↦ none | some v ↦ parse_hex (acc * 16 + v) cs ]

-- The digits of a number without leading zeros; as much fuel as the number is enough.
unfoldable pub hex_digits : ℕ → ℕ → List ℕ
hex_digits zero n = []
hex_digits (suc fuel) n =
    let rest = hex_digits fuel (n / 16) in if eqb n 0 then [] else rest ++ hex_digit (n % 16) ∷ []

-- fmt's `%04x`
unfoldable pub hex4 : ℕ → List ℕ
hex4 n =
    hex_digits n (n / 65536)
    ++ hex_digit (n / 4096 % 16)
      ∷ hex_digit (n / 256 % 16)
      ∷ hex_digit (n / 16 % 16)
      ∷ hex_digit (n % 16)
      ∷ []

-- io.ReadFull of so many bytes, with what is left.
unfoldable pub read_full : ℕ → List ℕ → Option (List ℕ × List ℕ)
read_full zero input = some ([], input)
read_full (suc n) [] = none
read_full (suc n) (b ∷ input) = elim (read_full n input) [
  | none ↦ none
  | some (l, rest) ↦ some (b ∷ l, rest)
]

abbrev pub is_nil : List ℕ → Bool
is_nil [] = true
is_nil (_ ∷ _) = false

-- strings.TrimSuffix of a newline
unfoldable pub trim_newline : List ℕ → List ℕ
trim_newline [] = []
trim_newline (b ∷ l) = if is_nil l && eqb b 10 then [] else b ∷ trim_newline l

abbrev pub payload : Option (List ℕ × List ℕ) → Result PktError (Frame × List ℕ)
payload none = err end_of_input
payload (some (l, rest)) = ok (line (trim_newline l), rest)

abbrev pub of_length : Option ℕ → List ℕ → Result PktError (Frame × List ℕ)
of_length none input = err invalid_length
of_length (some n) input =
    if eqb n 0
    then ok (flush, input)
    else if ltb n 4 || ltb 65520 n
    then err invalid_length
    else payload (read_full (n - 4) input)

abbrev pub headed : Option (List ℕ × List ℕ) → Result PktError (Frame × List ℕ)
headed none = err end_of_input
headed (some (header, input)) = of_length (parse_hex 0 header) input

-- `readPktLine`: the frame at the head of the input, and the rest of it.
unfoldable pub read_pkt_line : List ℕ → Result PktError (Frame × List ℕ)
read_pkt_line input = headed (read_full 4 input)

-- `formatPktLine`
unfoldable pub format_pkt_line : List ℕ → List ℕ
format_pkt_line p = hex4 (length p + 5) ++ p ++ 10 ∷ []

hex_value-digit : (d : ℕ) → d < 16 → hex_value (hex_digit d) ≡ some d
unfolding hex_digit hex_value
hex_value-digit d h = ground arith

hex_digits-zero : (fuel : ℕ) → hex_digits fuel 0 ≡ []
unfolding hex_digits
hex_digits-zero zero = refl
hex_digits-zero (suc fuel) = refl

parse_hex-digit :
    (acc d : ℕ) (l : List ℕ) → d < 16 → parse_hex acc (hex_digit d ∷ l) ≡ parse_hex (acc * 16 + d) l
unfolding parse_hex
parse_hex-digit acc d l h = rw (parse_hex, hex_value-digit d h) refl

parse_hex-digits :
    (a b c d : ℕ)
    → a < 16
    → b < 16
    → c < 16
    → d < 16
    → parse_hex 0 (hex_digit a ∷ hex_digit b ∷ hex_digit c ∷ hex_digit d ∷ [])
      ≡ some ((((0 * 16 + a) * 16 + b) * 16 + c) * 16 + d)
unfolding parse_hex
parse_hex-digits a b c d h i j k =
    parse_hex-digit 0 a (hex_digit b ∷ hex_digit c ∷ hex_digit d ∷ []) h
    ∙ parse_hex-digit (0 * 16 + a) b (hex_digit c ∷ hex_digit d ∷ []) i
    ∙ parse_hex-digit ((0 * 16 + a) * 16 + b) c (hex_digit d ∷ []) j
    ∙ parse_hex-digit (((0 * 16 + a) * 16 + b) * 16 + c) d [] k

-- What is formatted in four digits is parsed back.
parse_hex4 :
    (n : ℕ)
    → n < 65536
    → (a : ℕ) × (b : ℕ) × (c : ℕ) × (d : ℕ) × (hex4 n ≡ a ∷ b ∷ c ∷ d ∷ [])
      × (parse_hex 0 (a ∷ b ∷ c ∷ d ∷ []) ≡ some n)
unfolding hex4 parse_hex
parse_hex4 n h = (
  hex_digit (n / 4096 % 16),
  hex_digit (n / 256 % 16),
  hex_digit (n / 16 % 16),
  hex_digit (n % 16),
  (let z : n / 65536 ≡ 0 = omega arith in rw (z, hex_digits-zero n) refl),
  parse_hex-digits (n / 4096 % 16) (n / 256 % 16) (n / 16 % 16) (n % 16) (omega arith) (omega arith)
        (omega arith) (omega arith)
      ∙ ap some (omega arith),
)

read_full-append : (l rest : List ℕ) → read_full (length l) (l ++ rest) ≡ some (l, rest)
unfolding read_full
read_full-append [] rest = refl
read_full-append (b ∷ l) rest = ground (arith, read_full-append l rest)

trim_newline-append : (l : List ℕ) → trim_newline (l ++ 10 ∷ []) ≡ l
unfolding trim_newline
trim_newline-append [] = refl
trim_newline-append (b ∷ []) = ground arith
trim_newline-append (b ∷ c ∷ l) = ap (λ x. b ∷ x) (trim_newline-append (c ∷ l))

length-append_one : (l : List ℕ) (b : ℕ) → length (l ++ b ∷ []) ≡ length l + 1
length-append_one [] b = refl
length-append_one (c ∷ l) b = ground (arith, length-append_one l b)

of_length-read :
    (n : ℕ) (q rest : List ℕ)
    → n ≡ length q + 4
    → 4 < n
    → n ≤ 65520
    → of_length (some n) (q ++ rest) ≡ ok (line (trim_newline q), rest)
of_length-read n q rest e h k =
    let m : n - 4 ≡ length q = omega arith in
    ground (arith, m, ap (λ x. read_full x (q ++ rest)) m, read_full-append q rest)

-- `readPktLine` reads back the payload that `formatPktLine` framed, newlines in it included, and
-- leaves what follows the frame, where the frame is not longer than the 65520 bytes of the protocol.
pub read_pkt_line-format_pkt_line :
    (p rest : List ℕ)
    → length p + 5 ≤ 65520
    → read_pkt_line (format_pkt_line p ++ rest) ≡ ok (line p, rest)
unfolding read_pkt_line format_pkt_line read_full
read_pkt_line-format_pkt_line p rest h =
    let (a, b, c, d, e, parsed) = parse_hex4 (length p + 5) (omega arith) in
    rw (e, parsed)
      (of_length-read (length p + 5) (p ++ 10 ∷ []) rest (rw (length-append_one p 10) (omega arith))
          (omega arith) h
        ∙ ap (λ l. ok (line l, rest)) (trim_newline-append p))

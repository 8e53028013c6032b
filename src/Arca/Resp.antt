-- ===== src/Arca/Resp.antt =====
-- arca/resp.cpp: the RESP2 request parser and the reply serializers.
-- An offset into the buffer is what the buffer holds from there on.
pub mod Chunks
pub mod Feeds
use reame.Base.{
  ℕ, zero, suc, ◌+◌, ◌-◌, ◌*◌, ◌^◌, Bool, true, false, not, ◌&&◌, ◌||◌, Option, none, some, List,
  [], ◌∷◌, ◌++◌, ltb, leb, ◌==◌, if◌then◌else◌, length, take, drop, Bytes, list_eq, codes,
}
use reame.Arca.Decimal.{is_digit, all_digits, value_from, to_string}

-- A `long`: its sign as written, and its magnitude.
pub record Number : Type 0 where
  pub minus : Bool
  pub magnitude : ℕ

abbrev pub is_negative : Number → Bool
is_negative n = n.minus && not (n.magnitude == 0)

-- A RespError, with what its message quotes, or the std::out_of_range of std::stol.
pub data Fault : Type 0 where
  empty_length bare_minus expected_bulk not_terminated out_of_range : Fault
  non_numeric : Bytes → Fault
  bad_array_size bad_bulk_length : Number → Fault

-- More bytes are needed, an exception, or a value and the rest of the buffer.
pub data Outcome {ℓ} (A : Type ℓ) : Type ℓ where
  more : Outcome A
  fault : Fault → Outcome A
  done : A → Bytes → Outcome A

infixl 5 ◌>>=◌
abbrev pub ◌>>=◌ {ℓ κ} : {A : Type ℓ} {B : Type κ} → Outcome A → (A → Bytes → Outcome B) → Outcome B
more >>= f = more
fault e >>= f = fault e
done a rest >>= f = f a rest

abbrev pub crlf : Bytes
crlf = b'\r' ∷ b'\n' ∷ []

abbrev pub max_elements : ℕ
max_elements = 1024

abbrev pub max_bulk_bytes : ℕ
max_bulk_bytes = 64 * 1024 * 1024

-- `buf.find("\r\n")`: what stands before it, and what stands behind.
unfoldable pub split_crlf : Bytes → Option (Bytes × Bytes)
split_crlf [] = none
split_crlf (c ∷ []) = none
split_crlf (c ∷ d ∷ cs) =
    if (c == b'\r') && (d == b'\n')
    then some ([], cs)
    else elim (split_crlf (d ∷ cs)) [ none ↦ none | some (a, b) ↦ some (c ∷ a, b) ]

-- std::stol on the digits: `long` has 64 bits.
unfoldable pub to_long : Bool → Bytes → Bytes → Outcome Number
to_long minus digits rest =
    if not (all_digits digits)
    then fault (non_numeric (if minus then b'-' ∷ digits else digits))
    else if ltb (if minus then 2 ^ 63 else 2 ^ 63 - 1) (value_from 0 digits)
    then fault out_of_range
    else done (record { minus = minus; magnitude = value_from 0 digits }) rest

unfoldable pub read_digits : Bytes → Bytes → Outcome Number
read_digits [] rest = fault empty_length
read_digits (c ∷ []) rest = if c == b'-' then fault bare_minus else to_long false (c ∷ []) rest
read_digits (c ∷ d ∷ ds) rest =
    if c == b'-' then to_long true (d ∷ ds) rest else to_long false (c ∷ d ∷ ds) rest

unfoldable pub parse_number_line : Bytes → Outcome Number
parse_number_line buf = elim (split_crlf buf) [
  | none ↦ more
  | some (digits, rest) ↦ read_digits digits rest
]

-- The payload and its CRLF.
unfoldable pub parse_payload : ℕ → Bytes → Outcome Bytes
parse_payload len buf =
    if ltb (length buf) (len + 2)
    then more
    else if not (list_eq (take 2 (drop len buf)) crlf)
    then fault not_terminated
    else done (take len buf) (drop (len + 2) buf)

unfoldable pub parse_length : Number → Bytes → Outcome Bytes
parse_length n rest =
    if is_negative n || ltb max_bulk_bytes n.magnitude
    then fault (bad_bulk_length n)
    else parse_payload n.magnitude rest

unfoldable pub parse_bulk : Bytes → Outcome Bytes
parse_bulk [] = more
parse_bulk (c ∷ cs) =
    if not (c == b'$') then fault expected_bulk else parse_number_line cs >>= parse_length

unfoldable pub parse_bulks : ℕ → Bytes → Outcome (List Bytes)
parse_bulks zero buf = done [] buf
parse_bulks (suc n) buf =
    parse_bulk buf >>= λ part rest. parse_bulks n rest >>= λ parts rest'. done (part ∷ parts) rest'

unfoldable pub parse_array : Number → Bytes → Outcome (List Bytes)
parse_array n rest =
    if is_negative n || ltb max_elements n.magnitude
    then fault (bad_array_size n)
    else parse_bulks n.magnitude rest

abbrev pub push_word : Bytes → List Bytes → List Bytes
push_word [] out = out
push_word (w ∷ ws) out = (w ∷ ws) ∷ out

-- The words of an inline command; `word` is the one being read.
unfoldable pub words : Bytes → Bytes → List Bytes
words word [] = push_word word []
words word (c ∷ cs) = elim (c == b' ') [
  | true ↦ push_word word (words [] cs)
  | false ↦ words (word ++ c ∷ []) cs
]

unfoldable pub parse_inline : Bytes → Outcome (List Bytes)
parse_inline buf = elim (split_crlf buf) [
  | none ↦ more
  | some (line, rest) ↦ done (words [] line) rest
]

unfoldable pub parse_one : Bytes → Outcome (List Bytes)
parse_one [] = more
parse_one (c ∷ cs) =
    if not (c == b'*') then parse_inline (c ∷ cs) else parse_number_line cs >>= parse_array

pub record RespParser : Type 0 where
  pub buf : Bytes
  pub ready : List (List Bytes)

-- An empty command is not queued.
abbrev pub push_ready : List (List Bytes) → List Bytes → List (List Bytes)
push_ready ready [] = ready
push_ready ready (w ∷ ws) = ready ++ (w ∷ ws) ∷ []

-- The loop of `feed` over the buffer: what is left, the commands, and the exception that ended it.
unfoldable pub feed_loop : ℕ → Bytes → List (List Bytes) → Bytes × List (List Bytes) × Option Fault
feed_loop zero buf ready = (buf, ready, none)
feed_loop (suc fuel) buf ready = elim (parse_one buf) [
  | more ↦ (buf, ready, none)
  | fault e ↦ (buf, ready, some e)
  | done cmd rest ↦ feed_loop fuel rest (push_ready ready cmd)
]

-- On an exception the buffer keeps all its bytes.
abbrev pub settle : Bytes → Bytes × List (List Bytes) × Option Fault → RespParser × Option Fault
settle buf (rest, ready, none) = (record { buf = rest; ready = ready }, none)
settle buf (rest, ready, some f) = (record { buf = buf; ready = ready }, some f)

unfoldable pub feed : RespParser → Bytes → RespParser × Option Fault
feed p bytes = let buf = p.buf ++ bytes in settle buf (feed_loop (suc (length buf)) buf p.ready)

unfoldable pub take_ready : RespParser → RespParser × List (List Bytes)
take_ready p = (record p { ready = [] }, p.ready)

unfoldable pub number_text : Number → Bytes
number_text n = if is_negative n then b'-' ∷ to_string n.magnitude else to_string n.magnitude

-- `what()` of the exception.
unfoldable pub message : Fault → Bytes
message empty_length = codes "empty length in RESP input"
message bare_minus = codes "bare minus in RESP length"
message (non_numeric digits) = codes "non-numeric RESP length: " ++ digits
message (bad_array_size n) = codes "unreasonable RESP array size: " ++ number_text n
message expected_bulk = codes "expected bulk string marker '$'"
message (bad_bulk_length n) = codes "unreasonable RESP bulk length: " ++ number_text n
message not_terminated = codes "bulk payload not terminated by CRLF"
message out_of_range = codes "stol"

unfoldable pub resp_simple : Bytes → Bytes
resp_simple s = b'+' ∷ (s ++ crlf)

unfoldable pub resp_error : Bytes → Bytes
resp_error s = b'-' ∷ (s ++ crlf)

-- Of a number that is not negative.
unfoldable pub resp_integer : ℕ → Bytes
resp_integer v = b':' ∷ (to_string v ++ crlf)

unfoldable pub resp_bulk : Bytes → Bytes
resp_bulk s = b'$' ∷ (to_string (length s) ++ (crlf ++ (s ++ crlf)))

unfoldable pub resp_nil : Bytes
resp_nil = b'$' ∷ b'-' ∷ b'1' ∷ crlf

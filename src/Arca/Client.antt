-- ===== src/Arca/Client.antt =====
-- arca/client.cpp: what the client writes, and how it reads a reply.
-- The socket is left out: `read_reply` is on the bytes received so far, and `more` reads on.
use reame.Base.{
  ℕ, ◌+◌, ◌-◌, ◌^◌, Bool, true, false, not, ◌&&◌, Option, none, some, [], ◌∷◌, ◌++◌, ltb, ◌==◌,
  if◌then◌else◌, length, take, Bytes, codes,
}
use reame.Arca.Decimal.{value_from}
use reame.Arca.Archive.{leading_digits, skip_spaces}
use reame.Arca.Resp.{split_crlf, resp_bulk}

unfoldable pub get_request : Bytes → Bytes
get_request key = codes "*2\r\n$3\r\nGET\r\n" ++ resp_bulk key

unfoldable pub set_request : Bytes → Bytes → Bytes
set_request key value = codes "*3\r\n$3\r\nSET\r\n" ++ (resp_bulk key ++ resp_bulk value)

-- More bytes are needed, an exception (which drops the connection and gives nothing), or the value.
pub data Reply : Type 0 where
  more thrown : Reply
  reply : Option Bytes → Reply

-- The bulk of `n` bytes behind the first line, and its CRLF.
unfoldable pub read_bulk : ℕ → Bytes → Reply
read_bulk n rest = if ltb (length rest) (n + 2) then more else reply (some (take n rest))

-- std::stol of the head; a number below 0 is a nil reply.
unfoldable pub bulk_from : Bool → Bytes → Bytes → Reply
bulk_from minus digits rest = elim (leading_digits digits) [
  | [] ↦ thrown
  | c ∷ cs ↦
      let v = value_from 0 (c ∷ cs) in
      if ltb (if minus then 2 ^ 63 else 2 ^ 63 - 1) v
      then thrown
      else if minus && not (v == 0)
      then reply none
      else read_bulk v rest
]

unfoldable pub bulk_reply : Bytes → Bytes → Reply
bulk_reply [] rest = thrown
bulk_reply (c ∷ cs) rest =
    if c == b'-'
    then bulk_from true cs rest
    else if c == b'+'
    then bulk_from false cs rest
    else bulk_from false (c ∷ cs) rest

-- A reply other than a bulk: "" for +OK, nothing for an error or an unknown type.
unfoldable pub head_reply : Bytes → Bytes → Reply
head_reply [] rest = reply none
head_reply (c ∷ head) rest =
    if c == b'+'
    then reply (some [])
    else if c == b'$'
    then bulk_reply (skip_spaces head) rest
    else reply none

-- What is behind the reply is dropped with the buffer.
unfoldable pub read_reply : Bytes → Reply
read_reply buf = elim (split_crlf buf) [ none ↦ more | some (head, rest) ↦ head_reply head rest ]

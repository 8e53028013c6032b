-- ===== src/Arca/Archive.antt =====
-- arca/archive.cpp: the commands of the archive, on the disk store and the corpus.
-- The mutex makes a dispatch atomic. std::toupper and std::stoi are those of the C locale.
pub mod Tokens
use reame.Base.{
  ℕ, zero, suc, ◌+◌, ◌-◌, ◌*◌, ◌%◌, ◌^◌, Bool, true, false, not, ◌&&◌, ◌||◌, Option, none, some,
  List, [], ◌∷◌, ◌++◌, ltb, leb, ◌==◌, if◌then◌else◌, length, Bytes, list_eq, le_bytes, from_le,
  map, codes,
}
use reame.Cache.Store.{Store, Files, put, get, remove, contains, count}
use reame.Corpus.{Corpus, observe, draft}
use reame.Arca.Decimal.{is_digit, value_from}
use reame.Arca.Resp.{resp_simple, resp_error, resp_integer, resp_bulk, resp_nil}

unfoldable pub upper : Bytes → Bytes
upper [] = []
upper (c ∷ cs) = (if leb b'a' c && leb c b'z' then c - 32 else c) ∷ upper cs

unfoldable pub err_arity : Bytes → Bytes
err_arity name = resp_error (codes "ERR wrong number of arguments for '" ++ (name ++ codes "'"))

unfoldable pub pack_tokens : List ℕ → Bytes
pack_tokens [] = []
pack_tokens (t ∷ ts) = le_bytes 4 t ++ pack_tokens ts

unfoldable pub unpack_words : Bytes → List ℕ
unpack_words (a ∷ b ∷ c ∷ d ∷ rest) = from_le (a ∷ b ∷ c ∷ d ∷ []) ∷ unpack_words rest
unpack_words rest = []

-- `none` when the payload is not a whole number of words.
unfoldable pub unpack_tokens : Bytes → Option (List ℕ)
unpack_tokens s = if not (length s % 4 == 0) then none else some (unpack_words s)

-- What std::stoi returns: an int by its sign as written and its magnitude.
unfoldable pub skip_spaces : Bytes → Bytes
skip_spaces [] = []
skip_spaces (c ∷ cs) =
    let rest = skip_spaces cs in if (c == b' ') || (leb 9 c && leb c 13) then rest else c ∷ cs

unfoldable pub leading_digits : Bytes → Bytes
leading_digits [] = []
leading_digits (c ∷ cs) = let rest = leading_digits cs in if is_digit c then c ∷ rest else []

unfoldable pub signed_from : Bool → Bytes → Option (Bool × ℕ)
signed_from minus digits = elim (leading_digits digits) [
  | [] ↦ none
  | c ∷ cs ↦
      let v = value_from 0 (c ∷ cs) in
      if ltb (if minus then 2 ^ 31 else 2 ^ 31 - 1) v then none else some (minus, v)
]

unfoldable pub stoi_sign : Bytes → Option (Bool × ℕ)
stoi_sign [] = none
stoi_sign (c ∷ cs) =
    if c == b'-'
    then signed_from true cs
    else if c == b'+'
    then signed_from false cs
    else signed_from false (c ∷ cs)

unfoldable pub stoi : Bytes → Option (Bool × ℕ)
stoi s = stoi_sign (skip_spaces s)

unfoldable pub get_reply : Option Bytes → Bytes
get_reply none = resp_nil
get_reply (some payload) = resp_bulk payload

unfoldable pub draft_reply : List ℕ → Bytes
draft_reply [] = resp_nil
draft_reply (t ∷ ts) = resp_bulk (pack_tokens (t ∷ ts))

pub record Archive (D : Type 0) : Type 0 where
  pub store : Store D
  pub corpus : Corpus

module _ {D : Type 0} (f : Files D) where
  unfoldable pub set_command : Archive D → List Bytes → Archive D × Bytes
  set_command a (key ∷ value ∷ []) =
      let (store, ok) = put f a.store key value in
      (
        record a { store = store },
        if ok
            then resp_simple (codes "OK")
            else resp_error (codes "ERR value larger than the archive budget"),
      )
  set_command a args = (a, err_arity (codes "set"))

  unfoldable pub get_command : Archive D → List Bytes → Archive D × Bytes
  get_command a (key ∷ []) =
      let (store, data') = get f a.store key in (record a { store = store }, get_reply data')
  get_command a args = (a, err_arity (codes "get"))

  unfoldable pub del_command : Archive D → List Bytes → Archive D × Bytes
  del_command a (key ∷ []) =
      let (store, removed) = remove f a.store key in
      (record a { store = store }, resp_integer (if removed then 1 else 0))
  del_command a args = (a, err_arity (codes "del"))

  unfoldable pub exists_command : Archive D → List Bytes → Archive D × Bytes
  exists_command a (key ∷ []) = (a, resp_integer (if contains a.store key then 1 else 0))
  exists_command a args = (a, err_arity (codes "exists"))

  unfoldable pub dbsize_command : Archive D → List Bytes → Archive D × Bytes
  dbsize_command a [] = (a, resp_integer (count a.store))
  dbsize_command a (x ∷ args) = (a, err_arity (codes "dbsize"))

  unfoldable pub observe_command : Archive D → List Bytes → Archive D × Bytes
  observe_command a (payload ∷ []) = elim (unpack_tokens payload) [
    | none ↦ (a, resp_error (codes "ERR token payload must be whole u32s"))
    | some toks ↦ (record a { corpus = observe a.corpus toks }, resp_simple (codes "OK"))
  ]
  observe_command a args = (a, err_arity (codes "arca.observe"))

  unfoldable pub draft_command : Archive D → List Bytes → Archive D × Bytes
  draft_command a (payload ∷ number ∷ []) = elim (unpack_tokens payload) [
    | none ↦ (a, resp_error (codes "ERR token payload must be whole u32s"))
    | some tail ↦ elim (stoi number) [
      | none ↦ (a, resp_error (codes "ERR draft length is not an integer"))
      | some (minus, k) ↦
          if minus || (k == 0)
          then (a, resp_error (codes "ERR draft length must be positive"))
          else (a, draft_reply (draft a.corpus tail k))
    ]
  ]
  draft_command a args = (a, err_arity (codes "arca.draft"))

  unfoldable pub dispatch : Archive D → List Bytes → Archive D × Bytes
  dispatch a [] = (a, resp_error (codes "ERR empty command"))
  dispatch a (c ∷ args) =
      let name = upper c in
      if list_eq name (codes "PING")
      then (a, resp_simple (codes "PONG"))
      else if list_eq name (codes "SET")
      then set_command a args
      else if list_eq name (codes "GET")
      then get_command a args
      else if list_eq name (codes "DEL")
      then del_command a args
      else if list_eq name (codes "EXISTS")
      then exists_command a args
      else if list_eq name (codes "DBSIZE")
      then dbsize_command a args
      else if list_eq name (codes "ARCA.OBSERVE")
      then observe_command a args
      else if list_eq name (codes "ARCA.DRAFT")
      then draft_command a args
      else (a, resp_error (codes "ERR unknown command '" ++ (c ++ codes "'")))

-- ===== src/Arca/Session/Serve.antt =====
-- arca/server.cpp: a client's request, from its bytes to the reply.
use reame.Base.{
  ℕ, zero, suc, ◌^◌, ◌≤◌, ◌≡◌, refl, subst, ◌∙◌, ap, true, none, some, List, [], ◌∷◌, ◌++◌, arith,
  length, Bytes, list_eq, codes,
}
use mathlib.Core.List.{append-nil}
use reame.Arca.Decimal.{all_digits, value_from}
use reame.Arca.Resp.{
  done, fault, out_of_range, max_bulk_bytes, crlf, parse_one, RespParser, feed_loop, feed,
  take_ready, resp_simple, resp_bulk,
}
use reame.Arca.Resp.Feeds.{feed_loop-fault, feed_loop-done}
use reame.Arca.Client.{get_request, set_request, read_reply, reply}
use reame.Arca.Archive.{Archive, dispatch, upper, set_command, get_command, get_reply}
use reame.Arca.Session.Printed.{parse_one-out_of_range}
use reame.Arca.Session.Wire.{parse_one-request, read_reply-resp_bulk}
use reame.Arca.Session.{serve_read, served, dispatch_all, stays, terminates, caught}
use reame.Cache.Store.{Files, put, get}
use reame.Cache.Store.Recall.{get-put}

-- The parser of a new connection.
abbrev pub fresh_parser : RespParser
fresh_parser = record { buf = []; ready = [] }

feed_loop-nil : (n : ℕ) (ready : List (List Bytes)) → feed_loop n [] ready ≡ ([], ready, none)
unfolding feed_loop parse_one
feed_loop-nil zero ready = refl
feed_loop-nil (suc n) ready = refl

-- A read that is exactly one command.
feed-one :
    (bytes word : Bytes) (args : List Bytes)
    → parse_one bytes ≡ done (word ∷ args) []
    → feed fresh_parser bytes ≡ (record { buf = []; ready = (word ∷ args) ∷ [] }, none)
unfolding feed
feed-one bytes word args h =
    rw
      (
        feed_loop-done (length bytes) bytes [] [] (word ∷ args) h,
        feed_loop-nil (length bytes) ((word ∷ args) ∷ []),
      )
      refl

feed-huge :
    (p : RespParser) (bytes : Bytes)
    → parse_one (p.buf ++ bytes) ≡ fault out_of_range
    → feed p bytes ≡ (record { buf = p.buf ++ bytes; ready = p.ready }, some out_of_range)
unfolding feed
feed-huge p bytes h =
    rw (feed_loop-fault (length (p.buf ++ bytes)) (p.buf ++ bytes) p.ready out_of_range h) refl

module _ {D : Type 0} (f : Files D) where
  serve_read-one :
      (a : Archive D) (bytes word : Bytes) (args : List Bytes)
      → parse_one bytes ≡ done (word ∷ args) []
      → serve_read f a fresh_parser bytes
        ≡ ((dispatch f a (word ∷ args)).0, fresh_parser, (dispatch f a (word ∷ args)).1, stays)
  unfolding serve_read served dispatch_all take_ready
  serve_read-one a bytes word args h =
      ap (served f a) (feed-one bytes word args h)
      ∙ (ap (λ out. ((dispatch f a (word ∷ args)).0, fresh_parser, out, stays))
          (append-nil (dispatch f a (word ∷ args)).1))

  -- An array size of digits whose value is no `long` ends the daemon, on a connection that holds
  -- nothing yet: the exception is no RespError.
  pub serve_read-terminates :
      (a : Archive D) (digits rest : Bytes)
      → all_digits digits ≡ true
      → 2 ^ 63 ≤ value_from 0 digits
      → (serve_read f a fresh_parser (b'*' ∷ (digits ++ (crlf ++ rest)))).3 ≡ terminates
  unfolding serve_read served caught
  serve_read-terminates a digits rest h b =
      rw
        (feed-huge fresh_parser (b'*' ∷ (digits ++ (crlf ++ rest)))
          (parse_one-out_of_range digits rest h b))
        refl

  dispatch-set :
      (a : Archive D) (key value : Bytes)
      → dispatch f a (codes "SET" ∷ key ∷ value ∷ []) ≡ set_command f a (key ∷ value ∷ [])
  unfolding dispatch upper list_eq
  dispatch-set a key value = refl

  dispatch-get :
      (a : Archive D) (key : Bytes)
      → dispatch f a (codes "GET" ∷ key ∷ []) ≡ get_command f a (key ∷ [])
  unfolding dispatch upper list_eq
  dispatch-get a key = refl

  -- A SET of the client, read at once on a connection that holds nothing, runs DiskCacheStore::put
  -- on the key and the value and answers +OK if that succeeds; the connection stays and holds
  -- nothing. For keys and values of at most 64 MB.
  serve_read-set :
      (a : Archive D) (key value : Bytes)
      → length key ≤ max_bulk_bytes
      → length value ≤ max_bulk_bytes
      → (put f a.store key value).1 ≡ true
      → serve_read f a fresh_parser (set_request key value) ≡ (
        record a { store = (put f a.store key value).0 },
        fresh_parser,
        resp_simple (codes "OK"),
        stays,
      )
  unfolding set_command
  serve_read-set a key value h k ok =
      let parsed = (parse_one-request key value [] h k).0 in
      serve_read-one a (set_request key value) (codes "SET") (key ∷ value ∷ []) (
        subst (λ b. parse_one b ≡ done (codes "SET" ∷ key ∷ value ∷ []) [])
          (append-nil (set_request key value)) parsed)
      ∙ rw (dispatch-set a key value, ok) refl

  serve_read-get :
      (a : Archive D) (key value : Bytes)
      → length key ≤ max_bulk_bytes
      → (get f a.store key).1 ≡ some value
      → serve_read f a fresh_parser (get_request key)
        ≡ (record a { store = (get f a.store key).0 }, fresh_parser, resp_bulk value, stays)
  unfolding get_command get_reply
  serve_read-get a key value h found =
      let parsed = (parse_one-request key [] [] h (omega arith)).1 in
      serve_read-one a (get_request key) (codes "GET") (key ∷ []) (
        subst (λ b. parse_one b ≡ done (codes "GET" ∷ key ∷ []) []) (append-nil (get_request key))
          parsed)
      ∙ rw (dispatch-get a key, found) refl

  -- A client's SET whose put succeeds, and then a client's GET of the same key: the daemon's reply,
  -- read by the client, is the value that was set. For keys and values of at most 64 MB, where a file
  -- that is written whole reads back as it was written.
  pub serve_set_get :
      ((d : D) (name bytes : Bytes)
        → (f.write d name bytes).0 ≡ true
        → f.read (f.write d name bytes).1 name ≡ some bytes)
      → (a : Archive D) (key value : Bytes) → length key ≤ max_bulk_bytes
      → length value ≤ max_bulk_bytes
      → (put f a.store key value).1 ≡ true
      → read_reply
          (serve_read f
            (serve_read f a fresh_parser (set_request key value)).0
            fresh_parser
            (get_request key)).2
        ≡ reply (some value)
  serve_set_get reads_back a key value h k ok =
      let a' : Archive D = record a { store = (put f a.store key value).0 } in
      let found = get-put f reads_back a.store key value (omega arith) (omega arith) ok in
      rw (serve_read-set a key value h k ok, serve_read-get a' key value h found)
        (read_reply-resp_bulk value (omega arith))

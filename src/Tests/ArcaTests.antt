-- ===== src/Tests/ArcaTests.antt =====
-- arca/ at concrete inputs.
use reame.Base.{◌≡◌, refl, true, none, some, [], ◌∷◌, ◌++◌, arith, codes}
use reame.Cache.Store.{put, refuses, entry_size, written}
use reame.Corpus.{Corpus}
use reame.Arca.Decimal.{is_digit, all_digits, value_from}
use reame.Arca.Resp.{
  done, RespParser, crlf, parse_one, feed, feed_loop, split_crlf, parse_inline, words,
  parse_number_line, read_digits, to_long, parse_array, parse_bulks, parse_bulk, parse_length,
  parse_payload,
}
use reame.Arca.Resp.Feeds.{feed-append}
use reame.Arca.Archive.{
  Archive, unpack_tokens, pack_tokens, stoi, stoi_sign, signed_from, skip_spaces, leading_digits,
}
use reame.Arca.Archive.Tokens.{unpack_tokens-pack_tokens}
use reame.Arca.Client.{read_reply, reply, set_request, get_request}
use reame.Arca.Session.{serve_read, terminates}
use reame.Arca.Session.Printed.{print_command, parse_one-print_command}
use reame.Arca.Session.Serve.{fresh_parser, serve_read-terminates, serve_set_get}
use reame.Tests.StoreTests.{Disk, in_memory, in_memory-reads_back, two}

abbrev empty_corpus : Corpus
empty_corpus = record {
  cfg = record { ngram = 3; max_log_bytes = 64; max_sites = 8 };
  log = [];
  stream_ends = [];
  flushed_streams = 0;
  index = [];
  file = none;
}

abbrev archive : Archive Disk
archive = record { store = two; corpus = empty_corpus }

-- A bulk cut in two: the first slice waits.
abbrev half : RespParser
half = record { buf = codes "*1\r\n$4\r\nPI"; ready = (codes "A" ∷ []) ∷ [] }

feeds_half : feed (record { buf = []; ready = [] }) (codes "A\r\n*1\r\n$4\r\nPI") ≡ (half, none)
unfolding feed feed_loop parse_one parse_inline words split_crlf parse_number_line read_digits
    to_long all_digits is_digit value_from parse_array parse_bulks parse_bulk parse_length
    parse_payload
feeds_half = refl

feed-append_example :
    ((feed half (codes "NG\r\n")).0.ready
      ≡ (feed (record { buf = []; ready = [] }) (codes "A\r\n*1\r\n$4\r\nPING\r\n")).0.ready)
    × ((feed half (codes "NG\r\n")).1
        ≡ (feed (record { buf = []; ready = [] }) (codes "A\r\n*1\r\n$4\r\nPING\r\n")).1)
    × ((feed half (codes "NG\r\n")).1 ≡ none
        → feed half (codes "NG\r\n")
          ≡ feed (record { buf = []; ready = [] }) (codes "A\r\n*1\r\n$4\r\nPING\r\n"))
feed-append_example =
    feed-append (record { buf = []; ready = [] }) half (codes "A\r\n*1\r\n$4\r\nPI")
      (codes "NG\r\n") feeds_half

parse_one-print_command_example :
    parse_one (print_command (codes "GET" ∷ codes "k" ∷ []) ++ codes "PING\r\n")
    ≡ done (codes "GET" ∷ codes "k" ∷ []) (codes "PING\r\n")
parse_one-print_command_example =
    parse_one-print_command (codes "GET" ∷ codes "k" ∷ []) (codes "PING\r\n") (omega arith)
      (omega arith, (omega arith, tt))

serve_read-terminates_example :
    (serve_read in_memory archive fresh_parser
      (b'*' ∷ (codes "9999999999999999999" ++ (crlf ++ [])))).3
    ≡ terminates
unfolding all_digits is_digit value_from
serve_read-terminates_example =
    serve_read-terminates in_memory archive (codes "9999999999999999999") [] refl (omega arith)

stored_value : (put in_memory two (codes "k") (codes "v1")).1 ≡ true
unfolding put refuses entry_size written
stored_value = refl

serve_set_get_example :
    read_reply
      (serve_read in_memory
        (serve_read in_memory archive fresh_parser (set_request (codes "k") (codes "v1"))).0
        fresh_parser
        (get_request (codes "k"))).2
    ≡ reply (some (codes "v1"))
serve_set_get_example =
    serve_set_get in_memory in_memory-reads_back archive (codes "k") (codes "v1") (omega arith)
      (omega arith) stored_value

unpack_tokens-pack_tokens_example :
    unpack_tokens (pack_tokens (7 ∷ 70000 ∷ [])) ≡ some (7 ∷ 70000 ∷ [])
unpack_tokens-pack_tokens_example =
    unpack_tokens-pack_tokens (7 ∷ 70000 ∷ []) (omega arith, (omega arith, tt))

-- std::stoi skips blanks and stops behind the digits.
stoi_of_text : stoi (codes " -12x") ≡ some (true, 12)
unfolding stoi stoi_sign signed_from skip_spaces leading_digits is_digit value_from
stoi_of_text = refl

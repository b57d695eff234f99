-- ===== src/Http/Tests.antt =====
-- Requests in chunks, and the theorems at them.
use luadch.Common.{List, [], ◌∷◌, ◌++◌, some, ◌≡◌, refl, arith}
use luadch.Http.{
  Bytes, Request, request, reject, equal, starts_with, find, any_byte, all_bytes, span, is_version,
}
use luadch.Http.Head.{
  guard, match_target, match_request_line, crlf_lines, without_blanks, behind_colon, match_header,
  lower, set_header, get_header, add_header, header_line, header_lines, number, request_line,
  framed_by, parse_head,
}
use luadch.Http.Framer.{collect, after_head, parse, push, newhttpstage}
use luadch.Http.Chunks.{replies, all_of, pushes, headed, pushes-all_of}
use luadch.Http.Accepts.{IsReadFrom, push-request}

abbrev post_line : Bytes
post_line =
    b'P' ∷ b'O' ∷ b'S' ∷ b'T' ∷ b' ' ∷ b'/' ∷ b'a' ∷ b' ' ∷ b'H' ∷ b'T' ∷ b'T' ∷ b'P' ∷ b'/' ∷ b'1'
    ∷ b'.' ∷ b'1' ∷ b'\r' ∷ b'\n' ∷ []

abbrev length_line : Bytes
length_line =
    b'C' ∷ b'o' ∷ b'n' ∷ b't' ∷ b'e' ∷ b'n' ∷ b't' ∷ b'-' ∷ b'L' ∷ b'e' ∷ b'n' ∷ b'g' ∷ b't' ∷ b'h'
    ∷ b':' ∷ b' ' ∷ b'2' ∷ b'\r' ∷ b'\n' ∷ []

abbrev encoding_line : Bytes
encoding_line =
    b'T' ∷ b'r' ∷ b'a' ∷ b'n' ∷ b's' ∷ b'f' ∷ b'e' ∷ b'r' ∷ b'-' ∷ b'E' ∷ b'n' ∷ b'c' ∷ b'o' ∷ b'd'
    ∷ b'i' ∷ b'n' ∷ b'g' ∷ b':' ∷ b' ' ∷ b'c' ∷ b'h' ∷ b'u' ∷ b'n' ∷ b'k' ∷ b'e' ∷ b'd' ∷ b'\r'
    ∷ b'\n' ∷ []

abbrev empty_line : Bytes
empty_line = b'\r' ∷ b'\n' ∷ []

-- A request with two bytes of body and a byte behind them.
abbrev chunks : List Bytes
chunks =
    post_line ∷ ((length_line ++ (b'\r' ∷ [])) ∷ ((b'\n' ∷ b'h' ∷ []) ∷ ((b'i' ∷ b'!' ∷ []) ∷ [])))

abbrev post : Request
post = record {
  method = b'P' ∷ b'O' ∷ b'S' ∷ b'T' ∷ [];
  target = b'/' ∷ b'a' ∷ [];
  version = b'H' ∷ b'T' ∷ b'T' ∷ b'P' ∷ b'/' ∷ b'1' ∷ b'.' ∷ b'1' ∷ [];
  headers =
      (
        b'c' ∷ b'o' ∷ b'n' ∷ b't' ∷ b'e' ∷ b'n' ∷ b't' ∷ b'-' ∷ b'l' ∷ b'e' ∷ b'n' ∷ b'g' ∷ b't'
            ∷ b'h' ∷ [],
        b'2' ∷ [],
      )
      ∷ [];
  body = b'h' ∷ b'i' ∷ [];
}

post_given : (push newhttpstage (all_of chunks)).unit ≡ some (request post)
unfolding push parse after_head collect find starts_with parse_head request_line framed_by
    header_lines header_line add_header guard match_request_line match_target is_version span equal
    any_byte all_bytes crlf_lines match_header behind_colon without_blanks lower set_header
    get_header number all_of
post_given = refl

-- A body in chunks is refused.
encoding_refused :
    (push newhttpstage (post_line ++ (encoding_line ++ empty_line))).unit ≡ some (reject 400)
unfolding push parse after_head collect find starts_with parse_head request_line framed_by
    header_lines header_line add_header guard match_request_line match_target is_version span equal
    any_byte all_bytes crlf_lines match_header behind_colon without_blanks lower set_header
    get_header number all_of
encoding_refused = refl

-- So are two lengths.
lengths_refused :
    (push newhttpstage (post_line ++ (length_line ++ (length_line ++ empty_line)))).unit
    ≡ some (reject 400)
unfolding push parse after_head collect find starts_with parse_head request_line framed_by
    header_lines header_line add_header guard match_request_line match_target is_version span equal
    any_byte all_bytes crlf_lines match_header behind_colon without_blanks lower set_header
    get_header number all_of
lengths_refused = refl

pushes-all_of_example :
    pushes newhttpstage chunks ≡ replies (push newhttpstage (all_of chunks)).unit
unfolding all_of find starts_with
pushes-all_of_example = pushes-all_of chunks (headed 35 refl (omega arith))

push-request_example : IsReadFrom (all_of chunks) post
push-request_example = push-request (all_of chunks) post post_given

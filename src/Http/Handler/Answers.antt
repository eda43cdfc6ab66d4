-- ===== src/Http/Handler/Answers.antt =====
-- Who is answered, and with which bytes.
use seekserve.Common.{
  ℕ, suc, ◌+◌, ◌-◌, ◌^◌, ◌≤◌, ◌<◌, ◌≡◌, ◌≢◌, ◌⊎◌, refl, ap, true, false, Option, none, some, [],
  ◌∷◌, arith, inl, inr, Bool-cases, Option-cases, All,
}
use seekserve.Common.Int.{ℤ, pos, negsuc, ◌+ℤ◌, ◌-ℤ◌, ◌≤ℤ◌, ◌<ℤ◌}
use seekserve.Common.Bytes.{Bytes, codes, is_empty, Lacks}
use seekserve.RangeParser.{ParsedRange, parse_range_header}
use seekserve.RangeParser.Bounds.{IsWithin, parse_range_header-IsWithin}
use seekserve.Http.Url.{ParsedTarget, parse_target, stream_target, or_empty}
use seekserve.Http.Url.Laws.{IsId, parse_target-stream_target, token_value-stream_target}
use seekserve.Http.Auth.{
  get, Request, constant_time_compare, constant_time_compare_iff, IsByte, extract_token, bearer,
}
use seekserve.Http.Registry.{SourceEntry, Server, find_source}
use seekserve.Http.Handler.{
  forbidden, not_found, method_not_allowed, ok_200, Reply, small, head_only, streams, Handled,
  send_error, is_head, is_supported, whole_file, part_of_file, answer_range, serve_target,
  is_authorized, handle_connection, content_type_of,
}

-- An answer that does not depend on what is registered, and that nobody is notified of.
abbrev pub IsRefusal : Handled → Type 0
IsRefusal h =
    (h ≡ send_error method_not_allowed (codes "Method not allowed"))
    ⊎ (h ≡ send_error not_found (codes "Not found"))
    ⊎ (h ≡ send_error forbidden (codes "Forbidden"))

not_authorized :
    (sv : Server) (req : Request)
    → sv.auth_token ≢ []
    → All IsByte sv.auth_token
    → All IsByte (extract_token req)
    → extract_token req ≢ sv.auth_token
    → is_authorized sv req ≡ false
unfolding is_authorized
not_authorized sv req nonempty bytes sent_bytes differs =
    elim (Bool-cases (constant_time_compare (extract_token req) sv.auth_token)) [
      | inl same ↦ absurd (
          differs
            ((constant_time_compare_iff (extract_token req) sv.auth_token sent_bytes bytes).0 same))
      | inr apart ↦ rw (filled sv.auth_token nonempty) apart
    ]
  where
    filled : (s : Bytes) → s ≢ [] → is_empty s ≡ false
    filled [] h = absurd (h refl)
    filled (c ∷ s) h = refl

-- A request whose token is not the server's is refused: it reaches no source, the scheduler is not
-- told of it, and the answer does not say whether the stream exists. The server has a token, and both
-- tokens are texts of bytes.
pub handle_connection_unauthorized :
    (sv : Server) (file_size : ℕ → ℕ) (req : Request)
    → sv.auth_token ≢ []
    → All IsByte sv.auth_token
    → All IsByte (extract_token req)
    → extract_token req ≢ sv.auth_token
    → IsRefusal (handle_connection sv file_size req)
unfolding handle_connection
handle_connection_unauthorized sv file_size req nonempty bytes sent_bytes differs =
    elim (Bool-cases (is_supported req.method)) [
      | inr bad ↦ inl (rw (bad, handle_connection) refl)
      | inl good ↦ elim (Option-cases (parse_target req.target)) [
        | inl unread ↦ inr (inl (rw (good, unread, handle_connection) refl))
        | inr (target, read) ↦ inr (
            inr (
              rw
                (
                  good,
                  read,
                  handle_connection,
                  not_authorized sv req nonempty bytes sent_bytes differs,
                )
                refl))
      ]
    ]

-- `len` bytes from `start` on lie in a file of `size` bytes.
abbrev pub InFile : ℕ → ℤ → ℤ → Type 0
InFile size start len = (n : ℕ) × (m : ℕ) × (start ≡ pos n) × (len ≡ pos m) × (n + m ≤ size)

-- A body that is streamed lies inside the source's file and has the announced length.
abbrev pub IsInside : (ℕ → ℕ) → Reply → Type 0
IsInside file_size (small status ct cr body) = Unit
IsInside file_size (head_only h) = Unit
IsInside file_size (streams h source start len) =
    InFile (file_size source) start len × (h.content_length ≡ len)

ends :
    (a b : ℤ) (size : ℕ) → pos 0 ≤ℤ a → a ≤ℤ b → b <ℤ pos size → InFile size a ((b -ℤ a) +ℤ pos 1)
ends (pos n) (pos m) size h k l = (n, suc (m - n), refl, ground arith, omega arith)
ends (negsuc n) b size h k l = absurd (omega arith)
ends (pos n) (negsuc m) size h k l = absurd (omega arith)

IsWithin-InFile :
    (r : ParsedRange) (size : ℕ)
    → IsWithin r (pos size)
    → InFile size r.start ((r.end -ℤ r.start) +ℤ pos 1)
IsWithin-InFile r size h = ends r.start r.end size h.start_nonneg h.ordered h.end_below

whole_file-IsInside :
    (sv : Server) (file_size : ℕ → ℕ) (req : Request) (target : ParsedTarget) (entry : SourceEntry)
    → IsInside file_size (whole_file sv req target entry (pos (file_size entry.source))).reply
unfolding whole_file
whole_file-IsInside sv file_size req target entry = elim (Bool-cases (is_head req.method)) [
  | inl h ↦ rw (h, whole_file) tt
  | inr g ↦ rw (g, whole_file) ((0, file_size entry.source, refl, refl, omega arith), refl)
]

part_of_file-IsInside :
    (sv : Server) (file_size : ℕ → ℕ) (req : Request) (target : ParsedTarget) (entry : SourceEntry)
    (r : ParsedRange)
    → IsWithin r (pos (file_size entry.source))
    → IsInside file_size (part_of_file sv req target entry (pos (file_size entry.source)) r).reply
unfolding part_of_file
part_of_file-IsInside sv file_size req target entry r within =
    elim (Bool-cases (is_head req.method)) [
      | inl h ↦ rw (h, part_of_file) tt
      | inr g ↦ rw (g, part_of_file) (IsWithin-InFile r (file_size entry.source) within, refl)
    ]

answer_range-IsInside :
    (sv : Server) (file_size : ℕ → ℕ) (req : Request) (target : ParsedTarget) (entry : SourceEntry)
    (range : Option Bytes)
    → IsInside file_size
        (answer_range sv req target entry (pos (file_size entry.source)) range).reply
unfolding answer_range
answer_range-IsInside sv file_size req target entry none =
    whole_file-IsInside sv file_size req target entry
answer_range-IsInside sv file_size req target entry (some header) =
    let size = pos (file_size entry.source) in
    elim (Option-cases (parse_range_header header size)) [
      | inl bad ↦ rw (bad, answer_range) tt
      | inr (r, good) ↦
          rw (good, answer_range)
            (part_of_file-IsInside sv file_size req target entry r
              (parse_range_header-IsWithin header size good))
    ]

serve_target-IsInside :
    (sv : Server) (file_size : ℕ → ℕ) (req : Request) (target : ParsedTarget)
    → IsInside file_size (serve_target sv file_size req target).reply
unfolding serve_target
serve_target-IsInside sv file_size req target =
    elim (Option-cases (find_source target.torrent_id target.file_index sv)) [
      | inl absent ↦ rw (absent, serve_target) tt
      | inr (entry, present) ↦
          rw (present, serve_target) (answer_range-IsInside sv file_size req target entry req.range)
    ]

-- Whatever the request, a body that is streamed is a part of the source's file, inside its bounds,
-- and its length is the announced Content-Length.
pub handle_connection-IsInside :
    (sv : Server) (file_size : ℕ → ℕ) (req : Request)
    → IsInside file_size (handle_connection sv file_size req).reply
unfolding handle_connection
handle_connection-IsInside sv file_size req = elim (Bool-cases (is_supported req.method)) [
  | inr bad ↦ rw (bad, handle_connection) tt
  | inl good ↦ elim (Option-cases (parse_target req.target)) [
    | inl unread ↦ rw (good, unread, handle_connection) tt
    | inr (target, read) ↦ elim (Bool-cases (is_authorized sv req)) [
      | inr refused ↦ rw (good, read, handle_connection, refused) tt
      | inl welcome ↦
          rw (good, read, handle_connection, welcome)
            (serve_target-IsInside sv file_size req target)
    ]
  ]
]

-- A GET of a stream's URL, without further header fields.
abbrev pub get_stream : Bytes → ℕ → Bytes → Request
get_stream id n token = record {
  method = get;
  target = stream_target id (pos n) token;
  authorization = none;
  range = none;
  keep_alive = true;
}

pub authorized_by_url :
    (sv : Server) (id : Bytes) (n : ℕ)
    → IsId id
    → Lacks b'&' sv.auth_token
    → All IsByte sv.auth_token
    → is_authorized sv (get_stream id n sv.auth_token) ≡ true
unfolding is_authorized extract_token bearer
authorized_by_url sv id n hid lacks bytes =
    let token_is : extract_token (get_stream id n sv.auth_token) ≡ sv.auth_token =
      ap or_empty (token_value-stream_target id sv.auth_token n hid lacks) in
    elim (Bool-cases (is_empty sv.auth_token)) [
      | inl e ↦ rw e refl
      | inr e ↦
          rw (e, token_is)
            ((constant_time_compare_iff sv.auth_token sv.auth_token bytes bytes).1 refl)
    ]

-- A GET of the URL that the server gave out for a registered stream, with the server's token, is
-- answered with the whole file of that stream's source, from its first byte on. The id is hexadecimal,
-- the index fits an int, and the token is a text of bytes without `&`.
pub handle_connection-stream_target :
    (sv : Server) (file_size : ℕ → ℕ) (id : Bytes) (n : ℕ) (entry : SourceEntry)
    → IsId id
    → n < 2 ^ 31
    → Lacks b'&' sv.auth_token
    → All IsByte sv.auth_token
    → find_source id (pos n) sv ≡ some entry
    → (handle_connection sv file_size (get_stream id n sv.auth_token)).reply
      ≡ streams
          (record {
            status = ok_200;
            content_type = content_type_of entry;
            content_length = pos (file_size entry.source);
            content_range = [];
          })
          entry.source
          (pos 0)
          (pos (file_size entry.source))
unfolding handle_connection serve_target answer_range whole_file
handle_connection-stream_target sv file_size id n entry hid small_index lacks bytes present =
    rw
      (
        parse_target-stream_target id sv.auth_token n hid small_index lacks,
        handle_connection,
        authorized_by_url sv id n hid lacks bytes,
        serve_target,
        present,
      )
      refl

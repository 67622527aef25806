-- ===== src/Writer/Cql/Proxy.antt =====
-- services/dual-writer/src/cql_server.cpp: one client connection of the proxy. A socket is a stream
-- of bytes; `none` is an exception that ends the connection. The accept loop is not modelled.
pub mod Laws
pub mod Reads
pub mod Writes
pub mod Tests
use scylla_cluster_sync_cxx.Prelude.{
  ℕ, ◌+◌, ◌%◌, ◌^◌, Bool, true, false, ◌&&◌, Option, none, some, List, [], ◌∷◌, ◌++◌, ltb, leb,
  ◌==◌, if◌then◌else◌, length, get_or, take, drop, Text, codes, u64_mod, find, assign,
}
use scylla_cluster_sync_cxx.Prelude.Int.{ℤ, pos, negsuc}
use scylla_cluster_sync_cxx.Writer.DualWriter.{DualWriter, WriteResult, write}
use scylla_cluster_sync_cxx.Writer.Cql.Frame.{
  FrameHeader, to_bytes, parse_header, read_i32_be, read_i16_be, to_size, Parsed, parsed,
  length_error, parse_long_string, op_result, build_void_result,
}
use scylla_cluster_sync_cxx.Writer.Cql.Query.{is_write_query, extract_table_target}

abbrev pub op_query : ℕ
op_query = 0x07

abbrev pub op_prepare : ℕ
op_prepare = 0x09

abbrev pub op_execute : ℕ
op_execute = 0x0A

abbrev pub op_batch : ℕ
op_batch = 0x0D

abbrev pub result_prepared : ℤ
result_prepared = pos 4

-- The socket to the source: `answer` is what the source sends after a request, given the requests
-- before it (the newest first), `none` if the connection breaks; `sent` are the requests so far, and
-- `incoming` the bytes that are not read yet.
pub record Upstream : Type 0 where
  pub answer : List (List ℕ) → List ℕ → Option (List ℕ)
  pub sent : List (List ℕ)
  pub incoming : List ℕ

-- A frame, and the bytes behind it. A negative length asks for a vector that cannot be made, and a
-- stream that ends too early raises an error.
unfoldable pub read_full_frame : List ℕ → Option (List ℕ × List ℕ)
read_full_frame bytes =
    let body_len = to_size (read_i32_be (drop 5 bytes)) in
    if ltb (length bytes) 9
    then none
    else (if ltb (length bytes) (9 + body_len)
        then none
        else some (take (9 + body_len) bytes, drop (9 + body_len) bytes))

pub record PreparedStmt : Type 0 where
  pub query : Text
  pub is_write : Bool

pub record Proxy : Type 0 where
  pub writer : DualWriter
  pub upstream : Upstream
  pub prepared : List (Text × PreparedStmt)

-- What a write takes from outside: the random id, the clock, the duration.
pub record Env : Type 0 where
  pub id : Text
  pub now : ℕ
  pub elapsed : ℕ

receive : Upstream → List ℕ → Option (List ℕ) → Option (List ℕ × Upstream)
unfolding read_full_frame
receive u request none = none
receive u request (some bytes) = elim (read_full_frame (u.incoming ++ bytes)) [
  | none ↦ none
  | some (frame, rest) ↦ some (frame, record u { sent = request ∷ u.sent; incoming = rest })
]

unfoldable pub forward_and_proxy : Proxy → FrameHeader → List ℕ → Option (List ℕ × Proxy)
unfolding receive
forward_and_proxy p header body =
    let u = p.upstream in
    let request = to_bytes header ++ body in
    elim (receive u request (u.answer u.sent request)) [
      | none ↦ none
      | some (frame, u') ↦ some (frame, record p { upstream = u' })
    ]

-- A write: answered here if the source took it, else forwarded.
unfoldable pub intercept : Proxy → FrameHeader → List ℕ → Env → Text → Option (List ℕ × Proxy)
unfolding forward_and_proxy
intercept p header body env query =
    let (result, w) =
      write p.writer env.id env.now env.elapsed query (extract_table_target query) in
    if result.source_ok
    then some (build_void_result header.stream_id, record p { writer = w })
    else forward_and_proxy (record p { writer = w }) header body

handle_query : Proxy → FrameHeader → List ℕ → Env → Parsed → Option (List ℕ × Proxy)
unfolding intercept forward_and_proxy
handle_query p header body env length_error = none
handle_query p header body env (parsed query) =
    if is_write_query query
    then intercept p header body env query
    else forward_and_proxy p header body

-- The id of a prepared statement in the source's answer, and whether it is tracked: `none` is the
-- exception for a negative length that the size check lets through.
unfoldable pub prepared_id : List ℕ → Option (Option Text)
prepared_id response =
    let id_len = to_size (read_i16_be (drop 13 response)) in
    if ltb 15 (length response) && get_or response 4 0 == op_result
    then (elim (read_i32_be (drop 9 response)) [
      | negsuc k ↦ some none
      | pos kind ↦
          if kind == 4
          then (if leb ((15 + id_len) % u64_mod) (length response)
              then (if ltb id_len (2 ^ 63)
                  then some (some (take id_len (drop 15 response)))
                  else none)
              else some none)
          else some none
    ])
    else some none

track : Proxy → Text → List ℕ → Option (Option Text) → Option (List ℕ × Proxy)
track p query response none = none
track p query response (some none) = some (response, p)
track p query response (some (some id)) = some (
  response,
  record p {
    prepared = assign id (record { query = query; is_write = is_write_query query }) p.prepared;
  },
)

handle_prepare : Proxy → FrameHeader → List ℕ → Parsed → Option (List ℕ × Proxy)
unfolding forward_and_proxy prepared_id track
handle_prepare p header body length_error = none
handle_prepare p header body (parsed query) = elim (forward_and_proxy p header body) [
  | none ↦ none
  | some (response, p') ↦ track p' query response (prepared_id response)
]

-- The id in the body of an EXECUTE, empty where there is none.
unfoldable pub execute_id : List ℕ → Option Text
execute_id body =
    let id_len = to_size (read_i16_be body) in
    if ltb (length body) 2
    then some []
    else (if ltb (length body) ((2 + id_len) % u64_mod)
        then some []
        else (if ltb id_len (2 ^ 63) then some (take id_len (drop 2 body)) else none))

run_prepared : Proxy → FrameHeader → List ℕ → Env → Option PreparedStmt → Option (List ℕ × Proxy)
unfolding intercept forward_and_proxy
run_prepared p header body env none = forward_and_proxy p header body
run_prepared p header body env (some stmt) =
    if stmt.is_write
    then intercept p header body env stmt.query
    else forward_and_proxy p header body

handle_execute : Proxy → FrameHeader → List ℕ → Env → Option (List ℕ × Proxy)
unfolding execute_id run_prepared
handle_execute p header body env = elim (execute_id body) [
  | none ↦ none
  | some id ↦ run_prepared p header body env (find id p.prepared)
]

-- The switch on the opcode. A BATCH is forwarded as every other opcode is.
unfoldable pub handle_frame : Proxy → FrameHeader → List ℕ → Env → Option (List ℕ × Proxy)
unfolding handle_query handle_prepare handle_execute forward_and_proxy
handle_frame p header body env =
    if header.opcode == op_query
    then handle_query p header body env (parse_long_string body 0)
    else (if header.opcode == op_prepare
        then handle_prepare p header body (parse_long_string body 0)
        else (if header.opcode == op_execute
            then handle_execute p header body env
            else (if header.opcode == op_batch
                then forward_and_proxy p header body
                else forward_and_proxy p header body)))

-- One round of the loop over the client's bytes: the response, the bytes that are left, the state.
unfoldable pub serve_one : Proxy → List ℕ → Env → Option (List ℕ × List ℕ × Proxy)
unfolding read_full_frame handle_frame
serve_one p bytes env = elim (read_full_frame bytes) [
  | none ↦ none
  | some (frame, rest) ↦ elim (handle_frame p (parse_header (take 9 frame)) (drop 9 frame) env) [
    | none ↦ none
    | some (response, p') ↦ some (response, rest, p')
  ]
]

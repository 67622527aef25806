-- ===== src/Writer/Cql/Proxy/Writes.antt =====
-- How the proxy answers writes, and what of a prepared write it passes on.
use scylla_cluster_sync_cxx.Prelude.{
  ℕ, ◌/◌, ◌%◌, ◌^◌, ◌<◌, ◌≡◌, refl, true, false, some, List, ◌∷◌, ◌++◌, arith, ◌==◌, length, Text,
  find, length-append, take-length_append,
}
use scylla_cluster_sync_cxx.Svckit.Errors.{ok}
use scylla_cluster_sync_cxx.Svckit.Database.{execute}
use scylla_cluster_sync_cxx.Writer.DualWriter.{DualWriter, write}
use scylla_cluster_sync_cxx.Writer.DualWriter.Laws.{write_source_ok}
use scylla_cluster_sync_cxx.Writer.Cql.Frame.{
  FrameHeader, read_i16_be, parsed, parse_long_string, build_void_result,
}
use scylla_cluster_sync_cxx.Writer.Cql.Query.{extract_table_target}
use scylla_cluster_sync_cxx.Writer.Cql.Query.Laws.{BeginsAsWrite, is_write_query_iff}
use scylla_cluster_sync_cxx.Writer.Cql.Proxy.{
  op_query, op_prepare, op_execute, PreparedStmt, Proxy, Env, intercept, execute_id, handle_query,
  handle_execute, run_prepared, handle_frame,
}

-- The writer after the dual write of a statement.
abbrev pub after_write : Proxy → Env → Text → DualWriter
after_write p env query =
    (write p.writer env.id env.now env.elapsed query (extract_table_target query)).1

intercept_accepted :
    (p : Proxy) (header : FrameHeader) (body : List ℕ) (env : Env) (query : Text)
    → (execute p.writer.source query).0 ≡ ok tt
    → intercept p header body env query
      ≡ some (build_void_result header.stream_id, record p { writer = after_write p env query })
unfolding intercept
intercept_accepted p header body env query accepted =
    let ok_flag =
      (write_source_ok p.writer env.id env.now env.elapsed query (extract_table_target query)).1
        accepted in
    rw (ok_flag, intercept) refl

-- A QUERY that begins as a write, and that the source executes, is answered by the proxy: the client gets
-- a VOID result on its stream, the statement went through the dual writer under the extracted table
-- name, and the raw frame is not forwarded.
pub write_query_answered :
    (p : Proxy) (header : FrameHeader) (body : List ℕ) (env : Env) (query : Text)
    → header.opcode ≡ op_query
    → parse_long_string body 0 ≡ parsed query
    → BeginsAsWrite query
    → (execute p.writer.source query).0 ≡ ok tt
    → handle_frame p header body env
      ≡ some (build_void_result header.stream_id, record p { writer = after_write p env query })
unfolding handle_frame handle_query
write_query_answered p header body env query op text is_write accepted =
    let test : (header.opcode == op_query) ≡ true = ground arith in
    let hit = (is_write_query_iff query).1 is_write in
    let answer = intercept_accepted p header body env query accepted in
    rw (test, text, handle_query, hit) answer

-- The bytes of an EXECUTE: the length of the id in two bytes, the id, the bound values.
abbrev pub execute_body : List ℕ → List ℕ → List ℕ
execute_body id values = (length id / 2 ^ 8) ∷ (length id % 256) ∷ (id ++ values)

execute_id_body :
    (id values : List ℕ) → length id < 2 ^ 15 → execute_id (execute_body id values) ≡ some id
unfolding execute_id read_i16_be
execute_id_body id values h = ground (arith, length-append id values, take-length_append id values)

-- An EXECUTE of a tracked write passes on the text of the prepared statement alone: if the source
-- executes that text, the client is told that the write succeeded, nothing of the frame is
-- forwarded, and the outcome is the same whatever values the client bound.
pub execute_drops_values :
    (p : Proxy) (header : FrameHeader) (id values : List ℕ) (env : Env) (stmt : PreparedStmt)
    → header.opcode ≡ op_execute
    → length id < 2 ^ 15
    → find id p.prepared ≡ some stmt
    → stmt.is_write ≡ true
    → (execute p.writer.source stmt.query).0 ≡ ok tt
    → handle_frame p header (execute_body id values) env
      ≡ some
          (build_void_result header.stream_id, record p { writer = after_write p env stmt.query })
unfolding handle_frame handle_execute run_prepared
execute_drops_values p header id values env stmt op size found is_write accepted =
    let not_query : (header.opcode == op_query) ≡ false = ground arith in
    let not_prepare : (header.opcode == op_prepare) ≡ false = ground arith in
    let test : (header.opcode == op_execute) ≡ true = ground arith in
    let named = execute_id_body id values size in
    let answer = intercept_accepted p header (execute_body id values) env stmt.query accepted in
    rw (not_query, not_prepare, test, handle_execute, named, found, run_prepared, is_write) answer

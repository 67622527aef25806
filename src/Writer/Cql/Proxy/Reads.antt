-- ===== src/Writer/Cql/Proxy/Reads.antt =====
-- How the proxy passes on what is no write (services/dual-writer/src/cql_server.cpp).
use scylla_cluster_sync_cxx.Prelude.{ℕ, ◌≡◌, Option, some, List, Text}
use scylla_cluster_sync_cxx.Writer.Cql.Frame.{FrameHeader, parsed, parse_long_string}
use scylla_cluster_sync_cxx.Writer.Cql.Proxy.{
  op_query, op_prepare, op_execute, Proxy, prepared_id, execute_id,
}

-- Nothing that the proxy reads of the frame, or of the source's response to a PREPARE, makes it
-- raise an error: the text of a QUERY or PREPARE and the id of an EXECUTE have a length that fits.
pub record IsReadable (header : FrameHeader) (body response : List ℕ) : Type 0 where
  pub query : header.opcode ≡ op_query → (q : Text) × (parse_long_string body 0 ≡ parsed q)
  pub prepare : header.opcode ≡ op_prepare → (q : Text) × (parse_long_string body 0 ≡ parsed q)
  pub prepared : header.opcode ≡ op_prepare → (id : Option Text) × (prepared_id response ≡ some id)
  pub execute : header.opcode ≡ op_execute → (id : Text) × (execute_id body ≡ some id)

-- The response is given, and the rest of the proxy is that of `q` but for the tracked statements.
abbrev Answers : Option (List ℕ × Proxy) → List ℕ → Proxy → Type 0
Answers result response q =
    (p' : Proxy) × (result ≡ some (response, p'))
    × (p'.writer ≡ q.writer)
    × (p'.upstream ≡ q.upstream)

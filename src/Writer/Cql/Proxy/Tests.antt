-- ===== src/Writer/Cql/Proxy/Tests.antt =====
-- The laws of the proxy at a concrete client connection.
use scylla_cluster_sync_cxx.Prelude.{
  List, [], arith, codes, find, inl, refl, some, text_eq, true, ℕ, ◌++◌, ◌∷◌, ◌≡◌, ◌⊎◌,
}
use scylla_cluster_sync_cxx.Prelude.Int.{pos}
use scylla_cluster_sync_cxx.Svckit.Database.{execute}
use scylla_cluster_sync_cxx.Writer.Cql.Frame.{
  FrameHeader, build_void_result, parse_long_string, read_i32_be, to_bytes,
}
use scylla_cluster_sync_cxx.Writer.Cql.Proxy.{
  Env, PreparedStmt, Proxy, Upstream, forward_and_proxy, handle_frame, read_full_frame, receive,
}
use scylla_cluster_sync_cxx.Writer.Cql.Proxy.Laws.{
  CarriesWrite, Forwarded, handle_frame_forwards, read_full_frame_exact,
}
use scylla_cluster_sync_cxx.Writer.Cql.Proxy.Writes.{
  after_write, execute_body, execute_drops_values, write_query_answered,
}
use scylla_cluster_sync_cxx.Writer.Cql.Query.{to_upper}
use scylla_cluster_sync_cxx.Writer.Tests.{sample_writer}

abbrev answered_frame : List ℕ
answered_frame = 132 ∷ 0 ∷ 0 ∷ 1 ∷ 6 ∷ 0 ∷ 0 ∷ 0 ∷ 0 ∷ []

-- A source that answers every request with one frame.
abbrev sample_upstream : Upstream
sample_upstream = record { answer = λ sent request. some answered_frame; sent = []; incoming = [] }

abbrev prepared_insert : PreparedStmt
prepared_insert = record { query = codes "INSERT"; is_write = true }

abbrev sample_proxy : Proxy
sample_proxy = record {
  writer = sample_writer;
  upstream = sample_upstream;
  prepared = ((1 ∷ 2 ∷ []), prepared_insert) ∷ [];
}

abbrev sample_env : Env
sample_env = record { id = codes "w2"; now = 5; elapsed = 9 }

abbrev query_header : FrameHeader
query_header = record {
  version = 4;
  flags = 0;
  stream_id = pos 1;
  opcode = 7;
  body_length = pos 10;
}

abbrev execute_header : FrameHeader
execute_header = record {
  version = 4;
  flags = 0;
  stream_id = pos 1;
  opcode = 10;
  body_length = pos 5;
}

abbrev options_header : FrameHeader
options_header = record {
  version = 4;
  flags = 0;
  stream_id = pos 1;
  opcode = 5;
  body_length = pos 0;
}

abbrev options_bytes : List ℕ
options_bytes = 4 ∷ 0 ∷ 0 ∷ 1 ∷ 5 ∷ 0 ∷ 0 ∷ 0 ∷ 0 ∷ []

abbrev next_byte : List ℕ
next_byte = 7 ∷ []

abbrev forwarded_proxy : Proxy
forwarded_proxy = record sample_proxy {
  upstream = record sample_upstream { sent = options_bytes ∷ [] };
}

write_query_answered_example :
    handle_frame sample_proxy query_header (0 ∷ 0 ∷ 0 ∷ 6 ∷ codes "INSERT") sample_env
    ≡ some (
      build_void_result query_header.stream_id,
      record sample_proxy { writer = after_write sample_proxy sample_env (codes "INSERT") },
    )
unfolding parse_long_string read_i32_be to_upper execute text_eq
write_query_answered_example =
    write_query_answered sample_proxy query_header (0 ∷ 0 ∷ 0 ∷ 6 ∷ codes "INSERT") sample_env
      (codes "INSERT") refl refl ([], codes "INSERT", [], refl, tt, inl refl) refl

execute_drops_values_example :
    handle_frame sample_proxy execute_header (execute_body (1 ∷ 2 ∷ []) (7 ∷ [])) sample_env
    ≡ some (
      build_void_result execute_header.stream_id,
      record sample_proxy { writer = after_write sample_proxy sample_env prepared_insert.query },
    )
unfolding find text_eq execute
execute_drops_values_example =
    execute_drops_values sample_proxy execute_header (1 ∷ 2 ∷ []) (7 ∷ []) sample_env
      prepared_insert refl (omega arith) refl refl refl

handle_frame_forwards_example :
    CarriesWrite sample_proxy options_header []
    ⊎ Forwarded sample_proxy options_header [] forwarded_proxy
unfolding handle_frame forward_and_proxy receive read_full_frame to_bytes read_i32_be
handle_frame_forwards_example =
    handle_frame_forwards sample_proxy options_header [] sample_env answered_frame forwarded_proxy
      refl

read_full_frame_exact_example :
    read_full_frame (options_bytes ++ ([] ++ next_byte)) ≡ some (options_bytes ++ [], next_byte)
unfolding read_i32_be
read_full_frame_exact_example =
    read_full_frame_exact options_bytes [] next_byte refl (omega arith) refl

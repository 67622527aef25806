-- ===== src/Writer/Cql/Proxy/Laws.antt =====
-- What the proxy forwards, and what it answers itself.
use scylla_cluster_sync_cxx.Prelude.{
  ℕ, ◌+◌, ◌%◌, ◌^◌, ◌<◌, ◌≡◌, refl, sym, ap, ◌∙◌, ◌⊎◌, inl, inr, true, Option, none, some, List, [],
  ◌∷◌, ◌++◌, arith, ◌==◌, length, take, drop, Text, find, Bool-cases, Option-cases, length-append,
  take-length_append, drop-length_append, drop_beyond, take_beyond,
}
use scylla_cluster_sync_cxx.Prelude.Int.{pos}
use scylla_cluster_sync_cxx.Writer.DualWriter.{write}
use scylla_cluster_sync_cxx.Writer.Cql.Frame.{
  FrameHeader, to_bytes, read_i32_be, Parsed, parsed, length_error, parse_long_string,
}
use scylla_cluster_sync_cxx.Writer.Cql.Query.{is_write_query}
use scylla_cluster_sync_cxx.Writer.Cql.Query.Laws.{BeginsAsWrite, is_write_query_iff}
use scylla_cluster_sync_cxx.Writer.Cql.Proxy.{
  op_query, op_prepare, op_execute, Upstream, read_full_frame, PreparedStmt, Proxy, Env,
  forward_and_proxy, execute_id, handle_query, handle_prepare, handle_execute, prepared_id, track,
  run_prepared, handle_frame,
}

read_front :
    (front ys : List ℕ)
    → length front ≡ 9
    → read_i32_be (drop 5 (front ++ ys)) ≡ read_i32_be (drop 5 front)
unfolding read_i32_be
read_front (a ∷ b ∷ c ∷ d ∷ e ∷ f ∷ g ∷ h ∷ i ∷ []) ys size = refl
read_front _ ys size = absurd (omega arith)

-- A complete frame is read as it was sent, and the bytes behind it are left for the next one.
pub read_full_frame_exact :
    (front body rest : List ℕ)
    → length front ≡ 9
    → length body < 2 ^ 31
    → read_i32_be (drop 5 front) ≡ pos (length body)
    → read_full_frame (front ++ (body ++ rest)) ≡ some (front ++ body, rest)
unfolding read_full_frame
read_full_frame_exact front body rest size bound declared =
    let ys = body ++ rest in
    let n = length body in
    let all = length-append front ys in
    let inner = length-append body rest in
    let read = read_front front ys size ∙ declared in
    let small : n % 2 ^ 64 ≡ n = omega arith in
    let nine : 9 ≡ length front = sym size in
    let taken = take_beyond front ys n ∙ ap (◌++◌ front) (take-length_append body rest) in
    let left = drop_beyond front ys n ∙ drop-length_append body rest in
    let taken9 : take (9 + n) (front ++ ys) ≡ front ++ body = rw size at taken in
    let left9 : drop (9 + n) (front ++ ys) ≡ rest = rw size at left in
    rw (read, small, taken9, left9) (ground arith)

-- The frames that carry a write: a QUERY whose text begins as a write statement, or an EXECUTE of a
-- statement that was tracked as a write.
abbrev pub CarriesWrite : Proxy → FrameHeader → List ℕ → Type 0
CarriesWrite p header body =
    ((header.opcode ≡ op_query)
      × ((query : Text) × (parse_long_string body 0 ≡ parsed query) × BeginsAsWrite query))
    ⊎ ((header.opcode ≡ op_execute)
        × ((id : Text) × (stmt : PreparedStmt) × (execute_id body ≡ some id)
            × (find id p.prepared ≡ some stmt)
            × (stmt.is_write ≡ true)))

-- A response that was forwarded: the source was sent exactly one request, the header and the body of
-- the client's frame, and the dual writer was not used.
abbrev pub Forwarded : Proxy → FrameHeader → List ℕ → Proxy → Type 0
Forwarded p header body p' =
    (p'.writer ≡ p.writer) × (p'.upstream.sent ≡ (to_bytes header ++ body) ∷ p.upstream.sent)

forward_Forwarded :
    (p : Proxy) (header : FrameHeader) (body response : List ℕ) (p' : Proxy)
    → forward_and_proxy p header body ≡ some (response, p')
    → Forwarded p header body p'
unfolding forward_and_proxy
forward_Forwarded p header body response p' e = (ground arith, ground arith)

query_forwards :
    (p : Proxy) (header : FrameHeader) (body : List ℕ) (env : Env) (q : Parsed) (response : List ℕ)
    (p' : Proxy)
    → handle_query p header body env q ≡ some (response, p')
    → ((query : Text) × (q ≡ parsed query) × BeginsAsWrite query) ⊎ Forwarded p header body p'
unfolding handle_query
query_forwards p header body env length_error response p' e = cc
query_forwards p header body env (parsed query) response p' e =
    elim (Bool-cases (is_write_query query)) [
      | inl write ↦ inl (query, refl, (is_write_query_iff query).0 write)
      | inr read ↦ inr (forward_Forwarded p header body response p' (ground arith))
    ]

track_keeps :
    (p : Proxy) (query : Text) (bytes : List ℕ) (id : Option (Option Text)) (response : List ℕ)
    (p' : Proxy)
    → track p query bytes id ≡ some (response, p')
    → (p'.writer ≡ p.writer) × (p'.upstream ≡ p.upstream)
unfolding track
track_keeps p query bytes none response p' e = cc
track_keeps p query bytes (some none) response p' e = (ground arith, ground arith)
track_keeps p query bytes (some (some id)) response p' e = (ground arith, ground arith)

prepare_forwards :
    (p : Proxy) (header : FrameHeader) (body : List ℕ) (q : Parsed) (response : List ℕ) (p' : Proxy)
    → handle_prepare p header body q ≡ some (response, p')
    → Forwarded p header body p'
unfolding handle_prepare
prepare_forwards p header body length_error response p' e = cc
prepare_forwards p header body (parsed query) response p' e =
    elim (Option-cases (forward_and_proxy p header body)) [
      | inl broken ↦ ground arith
      | inr ((bytes, p1), sent) ↦
          let (writer, upstream) =
            track_keeps p1 query bytes (prepared_id bytes) response p' (ground arith) in
          let (same, log) = forward_Forwarded p header body bytes p1 sent in
          (writer ∙ same, ap (λ (u : Upstream). u.sent) upstream ∙ log)
    ]

run_forwards :
    (p : Proxy) (header : FrameHeader) (body : List ℕ) (env : Env) (found : Option PreparedStmt)
    (response : List ℕ) (p' : Proxy)
    → run_prepared p header body env found ≡ some (response, p')
    → ((stmt : PreparedStmt) × (found ≡ some stmt) × (stmt.is_write ≡ true))
      ⊎ Forwarded p header body p'
unfolding run_prepared
run_forwards p header body env none response p' e =
    inr (forward_Forwarded p header body response p' e)
run_forwards p header body env (some stmt) response p' e = elim (Bool-cases stmt.is_write) [
  | inl write ↦ inl (stmt, refl, write)
  | inr read ↦ inr (forward_Forwarded p header body response p' (ground arith))
]

execute_forwards :
    (p : Proxy) (header : FrameHeader) (body : List ℕ) (env : Env) (response : List ℕ) (p' : Proxy)
    → handle_execute p header body env ≡ some (response, p')
    → ((id : Text) × (stmt : PreparedStmt) × (execute_id body ≡ some id)
        × (find id p.prepared ≡ some stmt)
        × (stmt.is_write ≡ true))
      ⊎ Forwarded p header body p'
unfolding handle_execute
execute_forwards p header body env response p' e = elim (Option-cases (execute_id body)) [
  | inl broken ↦ ground arith
  | inr (id, named) ↦
      elim (run_forwards p header body env (find id p.prepared) response p' (ground arith)) [
        | inl (stmt, found, write) ↦ inl (id, stmt, named, found, write)
        | inr forwarded ↦ inr forwarded
      ]
]

-- Every answered frame carries a write or was forwarded: no other frame, a BATCH of writes included,
-- reaches the dual writer.
pub handle_frame_forwards :
    (p : Proxy) (header : FrameHeader) (body : List ℕ) (env : Env) (response : List ℕ) (p' : Proxy)
    → handle_frame p header body env ≡ some (response, p')
    → CarriesWrite p header body ⊎ Forwarded p header body p'
unfolding handle_frame
handle_frame_forwards p header body env response p' e =
    elim (Bool-cases (header.opcode == op_query)) [
      | inl is_query ↦
          elim (query_forwards p header body env (parse_long_string body 0) response p'
            (ground arith)) [
              | inl (query, text, write) ↦ inl (inl (ground arith, (query, text, write)))
              | inr forwarded ↦ inr forwarded
            ]
      | inr not_query ↦ elim (Bool-cases (header.opcode == op_prepare)) [
        | inl is_prepare ↦
            inr
              (prepare_forwards p header body (parse_long_string body 0) response p' (ground arith))
        | inr not_prepare ↦ elim (Bool-cases (header.opcode == op_execute)) [
          | inl is_execute ↦ elim (execute_forwards p header body env response p' (ground arith)) [
            | inl (id, stmt, named, found, write) ↦
                inl (inr (ground arith, (id, stmt, named, found, write)))
            | inr forwarded ↦ inr forwarded
          ]
          | inr other ↦ inr (forward_Forwarded p header body response p' (ground arith))
        ]
      ]
    ]

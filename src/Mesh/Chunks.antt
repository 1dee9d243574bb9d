-- ===== src/Mesh/Chunks.antt =====
-- src/mesh/ble/protocol.ts: `encodeChunks` and `decodeChunks`. A Buffer is the list of its bytes.
pub mod RoundTrip
pub mod Refusals
mod Tests
use edgecoder.Prelude.{
  ℕ, zero, suc, ◌+◌, ◌-◌, ◌*◌, ◌/◌, ◌%◌, Bool, true, false, not, ◌&&◌, Option, none, some, List, [],
  ◌∷◌, ◌++◌, ltb, leb, ◌==◌, if◌then◌else◌, Result, ok, err, ◌>>=◌, ◌>>◌, throw_if, length, take,
  drop, all, map, sort_by,
}

abbrev pub Buffer : Type 0
Buffer = List ℕ

abbrev pub default_mtu : ℕ
default_mtu = 512

abbrev pub chunk_header_size : ℕ
chunk_header_size = 4

pub data ChunkError : Type 0 where
  mtu_too_small : ℕ → ChunkError
  payload_too_large : ℕ → ChunkError
  wrong_count : ℕ → ℕ → ChunkError
  -- `readUInt16BE` past the end.
  out_of_range : ChunkError

-- `writeUInt16BE(n)` of a number below 65536.
abbrev pub write_uint16_be : ℕ → Buffer
write_uint16_be n = n / 256 ∷ n % 256 ∷ []

abbrev pub read_uint16_be : Buffer → ℕ → Result ChunkError ℕ
read_uint16_be chunk offset = elim (drop offset chunk) [
  | [] ↦ err out_of_range
  | high ∷ [] ↦ err out_of_range
  | high ∷ low ∷ rest ↦ ok (high * 256 + low)
]

abbrev pub header : ℕ → ℕ → Buffer
header seq_no total = write_uint16_be seq_no ++ write_uint16_be total

-- The rounds of the loop from `i` on, of which `rounds` are left.
unfoldable pub chunks_from : Buffer → ℕ → ℕ → ℕ → ℕ → List Buffer
chunks_from payload size total i zero = []
chunks_from payload size total i (suc rounds) =
    (header i total ++ take size (drop (i * size) payload))
    ∷ chunks_from payload size total (suc i) rounds

-- `Math.ceil(data.length / chunkDataSize)`
abbrev pub total_chunks : Buffer → ℕ → ℕ
total_chunks payload size = (length payload + (size - 1)) / size

unfoldable pub encode_chunks : Buffer → ℕ → Result ChunkError (List Buffer)
encode_chunks payload mtu =
    let size = mtu - chunk_header_size in
    let total = total_chunks payload size in
    if leb mtu chunk_header_size
    then err (mtu_too_small mtu)
    else if ltb 65535 total
    then err (payload_too_large total)
    else ok (chunks_from payload size total 0 total)

-- `chunk.readUInt16BE(0)` where it does not throw.
abbrev pub seq_no : Buffer → ℕ
seq_no [] = 0
seq_no (high ∷ []) = 0
seq_no (high ∷ low ∷ rest) = high * 256 + low

-- The comparison of the sort reads every chunk, unless there is only one.
abbrev pub sort_throws : List Buffer → Bool
sort_throws chunks = ltb 1 (length chunks) && not (all (λ c. leb 2 (length c)) chunks)

-- `sorted[0].readUInt16BE(2)`
abbrev pub expected_total : List Buffer → Result ChunkError ℕ
expected_total [] = err out_of_range
expected_total (first ∷ rest) = read_uint16_be first 2

-- `Buffer.concat(sorted.map((chunk) => chunk.subarray(CHUNK_HEADER_SIZE)))`
unfoldable pub concat_data : List Buffer → Buffer
concat_data [] = []
concat_data (chunk ∷ chunks) = drop chunk_header_size chunk ++ concat_data chunks

unfoldable pub decode_sorted : List Buffer → Result ChunkError Buffer
decode_sorted sorted = do
  total ← expected_total sorted
  throw_if (not (length sorted == total)) (wrong_count total (length sorted))
  ok (concat_data sorted)

unfoldable pub decode_chunks : List Buffer → Result ChunkError Buffer
unfolding decode_sorted
decode_chunks [] = ok []
decode_chunks (c ∷ cs) = do
  throw_if (sort_throws (c ∷ cs)) out_of_range
  decode_sorted (sort_by seq_no (c ∷ cs))

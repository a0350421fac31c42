-- ===== src/Kv/Tests.antt =====
-- kv/types.go: the encoding of small stream data.
use g_storage_client.Prelude.{refl, none, some, [], ◌∷◌, replicate, arith}
use g_storage_client.Merkle.{Hash}
use g_storage_client.Kv.{StreamData, stream_size, encode}
use g_storage_client.Kv.Keys.{Encodes}
use g_storage_client.Kv.Encoding.{KeysFit, encode-Encodes}

abbrev stream : Hash
stream = replicate 32 7

abbrev small : StreamData
small = record {
  version = 1;
  reads = record { stream_id = stream; key = 1 ∷ 2 ∷ [] } ∷ [];
  writes = record { stream_id = stream; key = 3 ∷ []; payload = 4 ∷ 5 ∷ 6 ∷ [] } ∷ [];
  controls =
      record { type_byte = 0; stream_id = stream; account = some (replicate 20 9); key = none }
      ∷ [];
}

encode-Encodes_example : Encodes (KeysFit small) (stream_size small) (encode small)
encode-Encodes_example =
    encode-Encodes small
      (((refl, omega arith), tt), ((refl, omega arith), tt), ((refl, refl, tt), tt))

-- ===== src/Serialization/Hashes.antt =====
-- src/metafile.cpp: the info hashes of a metafile. What SHA-1, SHA-256 and the encoder of bencode give are
-- the parameters `sha1`, `sha256` and `encode`.
use dottorrent.Base.{
  List, Bytes, take, ◌==◌, if◌then◌else◌, Run, ok, throws, ◌>>=◌, invalid_argument,
}
use dottorrent.Attributes.{v1, v2, hybrid}
use dottorrent.Announce.{AnnounceUrl}
use dottorrent.Storage.{protocol}
use dottorrent.InfoHash.{InfoHash, of_v1, of_v2, of_both}
use dottorrent.Metafile.{Metafile}
use dottorrent.Bencode.{Dict, Bencode}
use dottorrent.Serialization.{
  make_bvalue_infodict_v1, make_bvalue_infodict_v2, make_bvalue_infodict_hybrid,
}

module _ {V : Type 0} (B : Bencode V) (encode : V → Bytes) (sha1 sha256 : Bytes → Bytes)
    (cross_seed : List AnnounceUrl → Bytes) where
  unfoldable pub info_hash_v1 : Metafile → Dict V → Run Bytes
  info_hash_v1 m other = do
    info ←
        if protocol m.storage == hybrid
        then make_bvalue_infodict_hybrid B cross_seed m other
        else make_bvalue_infodict_v1 B cross_seed m other
    ok (sha1 (encode (B.dict info)))

  unfoldable pub info_hash_v2 : Metafile → Dict V → Run Bytes
  info_hash_v2 m other = do
    info ←
        if protocol m.storage == hybrid
        then make_bvalue_infodict_hybrid B cross_seed m other
        else make_bvalue_infodict_v2 B cross_seed m other
    ok (sha256 (encode (B.dict info)))

  unfoldable pub make_info_hash : Metafile → Dict V → Run InfoHash
  unfolding info_hash_v1 info_hash_v2
  make_info_hash m other =
      if protocol m.storage == v1
      then (do h ← info_hash_v1 m other; ok (of_v1 h))
      else if protocol m.storage == v2
      then (do h ← info_hash_v2 m other; ok (of_v2 h))
      else if protocol m.storage == hybrid
      then (do h ← info_hash_v1 m other; h' ← info_hash_v2 m other; ok (of_both h h'))
      else throws invalid_argument

-- truncate_v2_hash
unfoldable pub truncate_v2_hash : Bytes → Bytes
truncate_v2_hash hash = take 20 hash

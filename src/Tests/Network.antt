-- ===== src/Tests/Network.antt =====
-- The checksum of a header of two words.
use umbra_os.Prelude.{◌+◌, ◌-◌, ◌%◌, ◌^◌, ◌<◌, ◌≡◌, [], ◌∷◌, arith}
use umbra_os.Net.Checksum.{get_checksum, total, get_checksum_lem}

get_checksum_lem_example :
    (get_checksum (69 ∷ 65000 ∷ []) < 2 ^ 16)
    × ((get_checksum (69 ∷ 65000 ∷ []) + total (69 ∷ 65000 ∷ [])) % (2 ^ 16 - 1) ≡ 0)
get_checksum_lem_example = get_checksum_lem (69 ∷ 65000 ∷ []) (omega arith)

-- ===== src/Xxtea/Tests.antt =====
-- The cipher at concrete words.
use spp_server_frame_work.Base.{◌+◌, ◌^◌, ◌%◌, ◌≡◌, some, arith}
use spp_server_frame_work.Xxtea.{Words, xxtea_encrypt, xxtea_decrypt}
use spp_server_frame_work.Xxtea.RoundTrip.{xxtea_decrypt-xxtea_encrypt}

abbrev text : Words
text i = (i + 1000) % 2 ^ 32

abbrev key : Words
key i = i + 7

-- Nine bytes: two words and a byte that stays as it is.
xxtea_decrypt-xxtea_encrypt_example : xxtea_decrypt 33 (xxtea_encrypt text 9 key) 9 key ≡ some text
xxtea_decrypt-xxtea_encrypt_example =
    xxtea_decrypt-xxtea_encrypt text 9 key (omega arith) (λ i. omega arith)

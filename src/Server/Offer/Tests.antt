-- ===== src/Server/Offer/Tests.antt =====
-- The offers of Server/Offer at concrete inputs.
use sip_video.Prelude.{◌≡◌, refl, ◌∷◌, ◌++◌}
use sip_video.Text.{Bytes, bytes, split, join}
use sip_video.Server.Offer.{sanitize}
use sip_video.Server.Offer.Bare.{AreCut, sanitize-AreCut}

abbrev offer : Bytes
offer =
    bytes "m=audio 4000 RTP/SAVP 0 8 101"
    ++ 10
      ∷ (bytes "a=crypto:1 AES_80 inline:k UNENCRYPTED_SRTP"
          ++ 13 ∷ 10 ∷ bytes "a=crypto:2 AES_32 inline:j")

-- One line of the two is cut.
abbrev offer_read : Bytes
offer_read =
    bytes "m=audio 4000 RTP/SAVP 0 8 101"
    ++ 10 ∷ (bytes "a=crypto:1 AES_80 inline:k" ++ 13 ∷ 10 ∷ bytes "a=crypto:2 AES_32 inline:j")

sanitize-offer : sanitize offer ≡ (offer_read, 1)
unfolding sanitize join
sanitize-offer = refl

sanitize-AreCut_example :
    AreCut (split 10 offer) (split 10 (sanitize offer).0)
    × (sanitize (sanitize offer).0 ≡ ((sanitize offer).0, 0))
sanitize-AreCut_example = sanitize-AreCut offer

-- ===== src/Packet/Control/Handshake/Kinds.antt =====
-- The extensions of a handshake are found again, each by its kind.
use srt_rs.Prelude.{
  ℕ, ◌+◌, ◌≡◌, ◌⊎◌, refl, ◌∙◌, Option, none, some, List, ◌++◌, arith, All, All-append,
}
use srt_rs.Packet.Srt.{SrtControlPacket, type_id, stream_id}
use srt_rs.Packet.Srt.Sizes.{IsExt}
use srt_rs.Packet.Control.{HsV5Info, v5}
use srt_rs.Packet.Control.Handshake.{extensions, or_empty, sid_packet}
use srt_rs.Packet.Control.Handshake.Parse.{Found, nothing, add_ext}
use srt_rs.Packet.Control.Handshake.Extensions.{absorb}
use srt_rs.Packet.Wire.{Wire}

unfoldable pub found_of : HsV5Info → Found
found_of hs = record { ext_hs = hs.ext_hs; ext_km = hs.ext_km; sid = hs.sid }

-- No extension, or one of its kind: types 1 and 2 for the handshake, 3 and 4 for the keys.
unfoldable pub IsKind : Wire → ℕ → Option SrtControlPacket → Type 0
IsKind wire first none = Unit
IsKind wire first (some p) = IsExt wire p × ((type_id p ≡ first) ⊎ (type_id p ≡ first + 1))

unfoldable pub IsSid : Wire → Option (List ℕ) → Type 0
IsSid wire none = Unit
IsSid wire (some sid) = IsExt wire (stream_id sid)

-- An induction has no extensions and no key size; else each extension is of its kind.
pub record AreExts (wire : Wire) (hs : HsV5Info) : Type 0 where
  pub hs_kind : IsKind wire 1 hs.ext_hs
  pub km_kind : IsKind wire 3 hs.ext_km
  pub sid_kind : IsSid wire hs.sid
  pub group_none : hs.ext_group ≡ none

kind_ok :
    (wire : Wire) (first : ℕ) (o : Option SrtControlPacket)
    → IsKind wire first o
    → All (IsExt wire) (or_empty o)
unfolding IsKind
kind_ok wire first none h = tt
kind_ok wire first (some p) h = (h.0, tt)

sid_ok :
    (wire : Wire) (o : Option (List ℕ)) → IsSid wire o → All (IsExt wire) (or_empty (sid_packet o))
unfolding IsSid
sid_ok wire none h = tt
sid_ok wire (some sid) h = (h, tt)

pub exts_ok :
    (wire : Wire) (hs : HsV5Info) → AreExts wire hs → All (IsExt wire) (extensions (v5 hs))
unfolding extensions
exts_ok wire hs h =
    All-append (IsExt wire) (or_empty hs.ext_hs) _ (kind_ok wire 1 hs.ext_hs h.hs_kind) (
      All-append (IsExt wire) (or_empty hs.ext_km) _ (kind_ok wire 3 hs.ext_km h.km_kind)
        (sid_ok wire hs.sid h.sid_kind))

add_hs :
    (p : SrtControlPacket)
    → (type_id p ≡ 1) ⊎ (type_id p ≡ 1 + 1)
    → add_ext nothing (type_id p) p ≡ some (record nothing { ext_hs = some p })
unfolding add_ext
add_hs p h = ground arith

add_km :
    (found : Found) (p : SrtControlPacket)
    → (type_id p ≡ 3) ⊎ (type_id p ≡ 3 + 1)
    → add_ext found (type_id p) p ≡ some (record found { ext_km = some p })
unfolding add_ext
add_km found p h = ground arith

absorb_hs :
    (wire : Wire) (o : Option SrtControlPacket) (rest : List SrtControlPacket)
    → IsKind wire 1 o
    → absorb nothing (or_empty o ++ rest) ≡ absorb (record nothing { ext_hs = o }) rest
unfolding IsKind
absorb_hs wire none rest h = refl
absorb_hs wire (some p) rest h = rw (add_hs p h.1, absorb) refl

absorb_km :
    (wire : Wire) (hs o : Option SrtControlPacket) (rest : List SrtControlPacket)
    → IsKind wire 3 o
    → absorb (record nothing { ext_hs = hs }) (or_empty o ++ rest)
      ≡ absorb (record nothing { ext_hs = hs; ext_km = o }) rest
unfolding IsKind
absorb_km wire hs none rest h = refl
absorb_km wire hs (some p) rest h = rw (add_km (record nothing { ext_hs = hs }) p h.1, absorb) refl

absorb_sid :
    (found : Found) (o : Option (List ℕ))
    → found.sid ≡ none
    → absorb found (or_empty (sid_packet o)) ≡ some (record found { sid = o })
unfolding add_ext type_id
absorb_sid found none e = ground (arith, e)
absorb_sid found (some sid) e = refl

pub absorb_exts :
    (wire : Wire) (hs : HsV5Info)
    → AreExts wire hs
    → absorb nothing (extensions (v5 hs)) ≡ some (found_of hs)
unfolding extensions found_of
absorb_exts wire hs h =
    absorb_hs wire hs.ext_hs _ h.hs_kind
    ∙ (absorb_km wire hs.ext_hs hs.ext_km _ h.km_kind
        ∙ absorb_sid (record nothing { ext_hs = hs.ext_hs; ext_km = hs.ext_km }) hs.sid refl)

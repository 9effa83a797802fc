-- ===== src/Packet/Wire/BigEndian.antt =====
-- A value of the parameter `Wire`: the words in their documented order.
use srt_rs.Prelude.{
  ℕ, ◌<◌, ◌≡◌, refl, Bool, Option, none, some, List, ◌++◌, length, take, drop, take-append,
  drop-append, leb, if◌then◌else◌, arith, length-append,
}
use srt_rs.Packet.Wire.{Word, Wire, size, to_bytes, from_bytes}

abbrev pub get : Word → List ℕ → Option (ℕ × List ℕ)
get w buf =
    if leb (size w) (length buf)
    then some (from_bytes w (take (size w) buf), drop (size w) buf)
    else none

pub get_short : (w : Word) (buf : List ℕ) → length buf < size w → get w buf ≡ none
get_short w buf h = ground arith

pub get_front :
    (w : Word) (bytes rest : List ℕ)
    → length bytes ≡ size w
    → get w (bytes ++ rest) ≡ some (from_bytes w bytes, rest)
get_front w bytes rest h =
    let enough = length-append bytes rest in
    let long : get w (bytes ++ rest)
        ≡ some (from_bytes w (take (size w) (bytes ++ rest)), drop (size w) (bytes ++ rest)) =
      ground arith in
    rw (long, take-append (size w) bytes rest h, drop-append (size w) bytes rest h) refl

abbrev pub big_endian : (List ℕ → Bool) → Wire
big_endian is_utf8 = record {
  get = get;
  put = to_bytes;
  is_utf8 = is_utf8;
  get_short = get_short;
  get_front = get_front;
  put_lem = λ w n. refl;
}

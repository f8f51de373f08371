-- ===== src/Python/Dumps.antt =====
-- `json.dumps(obj, sort_keys=True, separators=(",", ":"), ensure_ascii=…)` on exact JSON, and
-- `hashlib.sha256(…).hexdigest()` as the parameter that the modules of server/ take.
use openchess.Base.{
  ℕ, zero, suc, ◌+◌, ◌-◌, ◌/◌, ◌%◌, Bool, true, false, ◌||◌, not, ◌≡◌, refl, List, [], ◌∷◌, ◌++◌,
  ltb, ◌==◌, if◌then◌else◌, Text, codes, text_lt, ◌<◌, arith,
}
use openchess.Python.Values.{
  ℤ, pos, negsuc, Value, null, boolean, integer, floating, text, list, dict, other, Items, nil,
  item, Entries, end, entry,
}

-- `str(n)`; a number has fewer digits than its value plus one, so the fuel `suc n` is enough
decimal_loop : ℕ → ℕ → Text → Text
decimal_loop zero n out = out
decimal_loop (suc f) n out =
    let more = decimal_loop f (n / 10) ((48 + n % 10) ∷ out) in
    if ltb n 10 then (48 + n) ∷ out else more

unfoldable pub decimal : ℕ → Text
unfolding decimal_loop
decimal n = decimal_loop (suc n) n []

abbrev print_int : ℤ → Text
print_int (pos n) = decimal n
print_int (negsuc n) = b'-' ∷ decimal (suc n)

-- the lower-case hexadecimal digit of a number below 16
abbrev hex_digit : ℕ → ℕ
hex_digit n = if ltb n 10 then 48 + n else 87 + n

-- `\uXXXX`
abbrev unicode_escape : ℕ → Text
unicode_escape n =
    b'\\'
    ∷ b'u'
    ∷ hex_digit (n / 4096 % 16)
    ∷ hex_digit (n / 256 % 16)
    ∷ hex_digit (n / 16 % 16)
    ∷ hex_digit (n % 16)
    ∷ []

-- One character within a JSON string; beyond the BMP an ASCII dump writes a surrogate pair.
escape : Bool → ℕ → Text
escape ascii c =
    if c == 34
    then 92 ∷ 34 ∷ []
    else if c == 92
    then 92 ∷ 92 ∷ []
    else if c == 10
    then 92 ∷ b'n' ∷ []
    else if c == 13
    then 92 ∷ b'r' ∷ []
    else if c == 9
    then 92 ∷ b't' ∷ []
    else if c == 8
    then 92 ∷ b'b' ∷ []
    else if c == 12
    then 92 ∷ b'f' ∷ []
    else if ltb c 32
    then unicode_escape c
    else if ltb c 127 || not ascii
    then c ∷ []
    else if ltb c 65536
    then unicode_escape c
    else unicode_escape (0xd800 + (c - 65536) / 1024)
      ++ unicode_escape (0xdc00 + (c - 65536) % 1024)

escape_all : Bool → Text → Text
escape_all ascii [] = []
escape_all ascii (c ∷ s) = escape ascii c ++ escape_all ascii s

quote : Bool → Text → Text
quote ascii s = 34 ∷ (escape_all ascii s ++ 34 ∷ [])

-- `sort_keys`: members by their keys, which are distinct in a dict
insert_member : Text → Text → List (Text × Text) → List (Text × Text)
insert_member k v [] = (k, v) ∷ []
insert_member k v ((j, w) ∷ ms) =
    if text_lt k j then (k, v) ∷ (j, w) ∷ ms else (j, w) ∷ insert_member k v ms

join_members : Bool → List (Text × Text) → Text
join_members ascii [] = []
join_members ascii ((k, v) ∷ []) = quote ascii k ++ (b':' ∷ v)
join_members ascii ((k, v) ∷ m ∷ ms) =
    quote ascii k ++ (b':' ∷ v) ++ (b',' ∷ join_members ascii (m ∷ ms))

join_items : List Text → Text
join_items [] = []
join_items (t ∷ []) = t
join_items (t ∷ u ∷ ts) = t ++ (b',' ∷ join_items (u ∷ ts))

-- What JSON has no form for (`other`, a key that is no str) raises, and is never passed: the
-- callers dump validated values alone.
unfoldable mutual
  unfolding escape escape_all quote insert_member join_members join_items

  pub dumps : Bool → Value → Text
  dumps ascii null = codes "null"
  dumps ascii (boolean true) = codes "true"
  dumps ascii (boolean false) = codes "false"
  dumps ascii (integer z) = print_int z
  dumps ascii (floating finite repr) = repr
  dumps ascii (text t) = quote ascii t
  dumps ascii (list i xs) = b'[' ∷ (join_items (dumps_items ascii xs) ++ b']' ∷ [])
  dumps ascii (dict i d) = b'{' ∷ (join_members ascii (dumps_entries ascii d) ++ b'}' ∷ [])
  dumps ascii other = []

  pub dumps_items : Bool → Items → List Text
  dumps_items ascii nil = []
  dumps_items ascii (item v xs) = dumps ascii v ∷ dumps_items ascii xs

  pub dumps_entries : Bool → Entries → List (Text × Text)
  dumps_entries ascii end = []
  dumps_entries ascii (entry (text k) v d) = insert_member k (dumps ascii v) (dumps_entries ascii d)
  dumps_entries ascii (entry _ v d) = dumps_entries ascii d

abbrev sample : Value
sample = dict 0 (
    entry (text (codes "b")) (integer (negsuc 11))
      (entry (text (codes "a")) (list 1 (item (boolean true) (item (text (codes "x\"")) nil))) end))

dumps-sample : dumps true sample ≡ codes "{\"a\":[true,\"x\\\"\"],\"b\":-12}"
unfolding dumps decimal text_lt
dumps-sample = refl

-- A number below ten is its digit.
pub decimal-digit : (n : ℕ) → n < 10 → decimal n ≡ ((48 + n) ∷ [])
unfolding decimal decimal_loop
decimal-digit n h = let small : ltb n 10 ≡ true = ground (arith, h) in rw small refl

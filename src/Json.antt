-- ===== src/Json.antt =====
-- rust/src/answer/json.rs: the data type of JSON answers, its print, and the escapes of its strings.
-- `F` stands for `f64`, with its print. The implementations of the traits of serde are left out.
pub mod Reader
pub mod RoundTrip
pub mod Tests
use typedb_driver.Common.{
  ℕ, zero, suc, ◌+◌, ◌-◌, ◌*◌, ◌/◌, ◌%◌, ◌≤◌, ◌<◌, ◌≡◌, refl, sym, ap, ◌∙◌, ◌⊎◌, inl, inr, Bool,
  true, false, not, ◌&&◌, ◌||◌, Option, none, some, List, [], ◌∷◌, ◌++◌, append-nil, append_assoc,
  arith, ltb, leb, ◌==◌, if◌then◌else◌, Bool-cases, Bytes, codes, get_elem?, length, All,
  All-append, nat_eq, lt→ltb, ltb→lt,
}

mutual
  pub data Json (F : Type 0) : Type 0 where
    object : Entries F → Json F
    array : Items F → Json F
    string : Bytes → Json F
    number : F → Json F
    boolean : Bool → Json F
    null : Json F

  -- The entries of an object, in the order of iteration.
  pub data Entries (F : Type 0) : Type 0 where
    no_entry : Entries F
    entry : Bytes → Json F → Entries F → Entries F

  pub data Items (F : Type 0) : Type 0 where
    no_item : Items F
    item : Json F → Items F → Items F

abbrev pub ascii_control : ℕ
ascii_control = 32

abbrev pub hex : ℕ
hex = 0

abbrev pub escape_table : List ℕ
escape_table =
    hex ∷ hex ∷ hex ∷ hex ∷ hex ∷ hex ∷ hex ∷ hex ∷ b'b' ∷ b't' ∷ b'n' ∷ hex ∷ b'f' ∷ b'r' ∷ hex
    ∷ hex ∷ hex ∷ hex ∷ hex ∷ hex ∷ hex ∷ hex ∷ hex ∷ hex ∷ hex ∷ hex ∷ hex ∷ hex ∷ hex ∷ hex ∷ hex
    ∷ hex ∷ []

abbrev or_zero : Option ℕ → ℕ
or_zero none = 0
or_zero (some n) = n

-- Indices are in range: a byte below 32 into the table, and half a byte into the digits.
pub escape_at : ℕ → ℕ
escape_at byte = or_zero (get_elem? escape_table byte)

pub hex_digit : ℕ → ℕ
hex_digit n = or_zero (get_elem? (codes "0123456789abcdef") n)

-- What the loop of `write_escaped_string` adds for a byte.
pub escape_byte : ℕ → Bytes
unfolding escape_at hex_digit
escape_byte byte =
    if ltb byte ascii_control
    then (if escape_at byte == hex
        then b'\\' ∷ b'u' ∷ b'0' ∷ b'0' ∷ hex_digit (byte / 16) ∷ hex_digit (byte % 16) ∷ []
        else b'\\' ∷ escape_at byte ∷ [])
    else if byte == b'"' || byte == b'\\'
    then b'\\' ∷ byte ∷ []
    else byte ∷ []

pub escape : Bytes → Bytes
unfolding escape_byte
escape [] = []
escape (byte ∷ s) = escape_byte byte ++ escape s

pub write_escaped_string : Bytes → Bytes
unfolding escape
write_escaped_string s = b'"' ∷ escape s ++ b'"' ∷ []

module _ {F : Type 0} (display_number : F → Bytes) where
  mutual
    unfolding write_escaped_string

    pub display : Json F → Bytes
    display (object l) = b'{' ∷ display_entries false l ++ b'}' ∷ []
    display (array l) = b'[' ∷ display_items false l ++ b']' ∷ []
    display (string s) = write_escaped_string s
    display (number x) = display_number x
    display (boolean b) = if b then codes "true" else codes "false"
    display null = codes "null"

    -- The flag says that an entry came before. A key is printed without escapes.
    pub display_entries : Bool → Entries F → Bytes
    display_entries later no_entry = []
    display_entries later (entry key value l) =
        (if later then codes ", " else [])
        ++ (b'"' ∷ key ++ (codes "\": " ++ (display value ++ display_entries true l)))

    pub display_items : Bool → Items F → Bytes
    display_items later no_item = []
    display_items later (item value l) =
        (if later then codes ", " else []) ++ (display value ++ display_items true l)

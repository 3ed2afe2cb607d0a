-- ===== src/Json/Tests.antt =====
-- Printed JSON values.
use typedb_driver.Common.{ℕ, ◌≡◌, refl, true, some, [], codes, nat_eq}
use typedb_driver.Json.{
  Json, object, array, string, boolean, null, entry, no_entry, item, no_item, escape, display,
  display_entries, display_items,
}
use typedb_driver.Json.Reader.{plain, read}
use typedb_driver.Json.RoundTrip.{read-escape}

abbrev sample : Json ℕ
sample = object (
    entry (codes "array") (array (item (boolean true) (item (string (codes "a\"b")) no_item)))
      (entry (codes "none") null no_entry))

sample_text : display (λ n. []) sample ≡ codes "{\"array\": [true, \"a\\\"b\"], \"none\": null}"
unfolding display display_entries display_items
sample_text = refl

-- The key `"` is printed as it is, so that the text is no JSON.
unescaped_key :
    display (λ (n : ℕ). []) (object (entry (codes "\"") null no_entry)) ≡ codes "{\"\"\": null}"
unfolding display display_entries display_items
unescaped_key = refl

read-escape_example : read plain (escape (codes "a\"\n\\")) ≡ some (codes "a\"\n\\")
read-escape_example = read-escape (codes "a\"\n\\")

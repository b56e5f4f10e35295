-- ===== src/Alias/Examples.antt =====
-- Tests of _alias_mangle.py and the witnesses of its theorems.
use slayer.Prelude.{◌≡◌, refl, ◌↔◌, true}
use slayer.Prelude.Text.{text}
use slayer.Alias.{encode_alias, decode_alias}
use slayer.Alias.Tokens.{restorable}
use slayer.Alias.RoundTrip.{decode-encode}

test1 : encode_alias (text "orders.amount") ≡ text "orders___amount"
unfolding encode_alias
test1 = refl

test2 : decode_alias (text "orders___a______b") ≡ text "orders.a___b"
unfolding decode_alias
test2 = refl

-- A model name that ends in an underscore is not restored.
corrupted : decode_alias (encode_alias (text "orders_.amount")) ≡ text "orders._amount"
unfolding encode_alias decode_alias
corrupted = refl

decode-encode_example :
    (decode_alias (encode_alias (text "orders.amount")) ≡ text "orders.amount")
    ↔ (restorable (text "orders.amount") ≡ true)
decode-encode_example = decode-encode (text "orders.amount")

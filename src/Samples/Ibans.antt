-- ===== src/Samples/Ibans.antt =====
-- A match that has swallowed a word after the IBAN.
use php_python_ai_bridge.Base.{◌≡◌, refl, some, codes}
use php_python_ai_bridge.Tasks.Ibans.{iban, trim, iban_of, before_space, number_of, digit_36}

trim_test :
    iban_of (codes "GB82 WEST 1234 5698 7654 32 EUR")
    ≡ some (some (codes "GB82 WEST 1234 5698 7654 32"))
unfolding iban_of trim iban before_space number_of digit_36
trim_test = refl

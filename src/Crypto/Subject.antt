-- ===== src/Crypto/Subject.antt =====
-- The subject attributes of acme_common/src/crypto.rs.
pub data SubjectAttribute : Type 0 where
  country_name generation_qualifier given_name initials locality_name name organization_name
        organizational_unit_name pkcs9_email_address postal_address postal_code
        state_or_province_name street surname title :
      SubjectAttribute

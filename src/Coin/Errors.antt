-- ===== src/Coin/Errors.antt =====
-- The errors of pkg/coin, one constructor for each message.
pub data CoinError : Type 0 where
  too_long : CoinError
  mixed_case : CoinError
  bad_separator : CoinError
  bad_character : CoinError
  bad_checksum : CoinError
  bad_value : CoinError
  bad_padding : CoinError
  wrong_hrp : CoinError
  empty_data : CoinError
  bad_program_length : CoinError
  bad_witness_version : CoinError
  unsupported_witness : CoinError
  too_short : CoinError
  bad_hash_length : CoinError
  unsupported_hash_type : CoinError
  cannot_decode : CoinError
  bad_payload_length : CoinError
  unknown_version : CoinError
  bad_commitment : CoinError
  bad_staking_script : CoinError
  bad_transaction : CoinError

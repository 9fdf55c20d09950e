-- ===== src/Tests/Calls.antt =====
-- The control channel, secrets and tokens at concrete inputs. The cipher of these runs puts a mark in
-- front of the text, and the codec of tokens knows one token.
use aegisvm.Base.{
  ℕ, ◌≡◌, refl, List, [], ◌∷◌, ◌++◌, Option, none, some, pos, ◌+ℤ◌, ltb_ℤ, true, false, ◌==◌,
  if◌then◌else◌, length, replicate, arith,
}
use aegisvm.Lifecycle.Demuxer.{
  RpcId, int, float, begins, receives, message, invalid, RpcMessage, new_channel_demuxer, act,
  act_all, normalize_id, same_key,
}
use aegisvm.Lifecycle.Demuxer.Delivery.{
  IsSound, new-IsSound, act_all-IsSound, act-begins, AllLeaveAlone,
}
use aegisvm.Secrets.{Aead, SecretStore, KeyIo, missing, contents, new_store, encrypt, decrypt}
use aegisvm.Secrets.Sealed.{IsAead, decrypt-encrypt}
use aegisvm.Lifecycle.Types.{Capabilities}
use aegisvm.Lifecycle.Guest.{child_capabilities}
use aegisvm.Lifecycle.Token.{
  issued, Codec, IsCodec, mint_child_token, validate_token, validate_token-mint_child_token,
}

abbrev reply : RpcId → RpcMessage
reply id = record { id = some id; method = ""; body = "{}" }

act_all-IsSound_example : IsSound (
    act_all
      (begins (int (pos 4)) ∷ receives (message (reply (float (pos 4)))) ∷ [])
      new_channel_demuxer)
act_all-IsSound_example =
    act_all-IsSound (begins (int (pos 4)) ∷ receives (message (reply (float (pos 4)))) ∷ [])
      new_channel_demuxer new-IsSound

others-AllLeaveAlone :
    AllLeaveAlone (normalize_id (int (pos 4))) (begins (int (pos 5)) ∷ receives invalid ∷ [])
unfolding normalize_id same_key
others-AllLeaveAlone = (refl, (tt, tt))

same_id : same_key (normalize_id (float (pos 4))) (normalize_id (int (pos 4))) ≡ true
unfolding normalize_id same_key
same_id = refl

act-begins_example :
    let answer : RpcMessage = record { id = some (float (pos 4)); method = ""; body = "{}" } in
    let before =
      act_all
        (begins (int (pos 5)) ∷ receives invalid ∷ [])
        (act (begins (int (pos 4))) new_channel_demuxer) in
    (act (receives (message answer)) before).sent ≡ before.sent ++ ((0, answer) ∷ [])
act-begins_example =
    act-begins (int (pos 4)) (float (pos 4)) "{}" (begins (int (pos 5)) ∷ receives invalid ∷ [])
      new_channel_demuxer refl same_id others-AllLeaveAlone

abbrev behind : List ℕ → Option (List ℕ)
behind [] = none
behind (x ∷ xs) = some xs

abbrev marking : Aead
marking = record {
  accepts = λ key. length key == 32;
  nonce_size = 12;
  seal = λ key nonce plaintext. 1 ∷ plaintext;
  open_sealed = λ key nonce ct. behind ct;
}

marking-IsAead : IsAead marking
marking-IsAead = record { accepts = λ key h. ground arith; opens = λ key nonce plaintext h. refl }

abbrev key : List ℕ
key = replicate 32 7

abbrev first_start : KeyIo
first_start = record { file = missing; random = some key; made_directory = true; written = true }

abbrev second_start : KeyIo
second_start = record {
  file = contents key;
  random = none;
  made_directory = false;
  written = false;
}

abbrev secrets : SecretStore
secrets = record { master_key = key }

new_store-first : (new_store first_start).0 ≡ some secrets
unfolding new_store
new_store-first = refl

new_store-left : second_start.file ≡ (new_store first_start).1
unfolding new_store
new_store-left = refl

decrypt-encrypt_example :
    (ct : List ℕ) × (encrypt marking (some (replicate 12 3)) secrets (104 ∷ 105 ∷ []) ≡ some ct)
    × ((later : SecretStore) × ((new_store second_start).0 ≡ some later)
        × (decrypt marking later ct ≡ some (104 ∷ 105 ∷ [])))
decrypt-encrypt_example =
    decrypt-encrypt marking first_start second_start secrets (replicate 12 3) (104 ∷ 105 ∷ [])
      marking-IsAead refl new_store-first new_store-left refl

abbrev parent_token : Capabilities
parent_token = record {
  parent_id = "parent";
  issued_at = pos 50;
  expire_at = pos 60;
  spawn = true;
  spawn_depth = pos 2;
  max_children = pos 3;
  allowed_images = "alpine" ∷ [];
  max_memory_mb = pos 512;
  max_vcpus = pos 1;
  allowed_secrets = [];
  max_expose_ports = pos 0;
}

abbrev child_token : Capabilities
child_token = record parent_token {
  parent_id = "child";
  issued_at = pos 100;
  expire_at = pos 86500;
  spawn_depth = pos 1;
}

abbrev one_token : Codec
one_token = record {
  marshal = λ caps. [];
  unmarshal = λ data'. some child_token;
  encode = λ data'. data';
  decode = λ token. some token;
}

one_token-IsCodec : IsCodec one_token (issued (pos 100) "child" (child_capabilities parent_token))
unfolding issued child_capabilities
one_token-IsCodec = record { reads = refl; decodes = λ data'. refl }

validate_token-mint_child_token_example :
    (token : List ℕ) × (mint_child_token marking one_token
        (some (replicate 12 3))
        secrets
        (pos 100)
        "child"
        parent_token
      ≡ some token)
    × (validate_token marking one_token secrets (pos 200) token
        ≡ (if ltb_ℤ (pos 100 +ℤ pos 86400) (pos 200) then none else some child_token))
validate_token-mint_child_token_example =
    validate_token-mint_child_token marking one_token marking-IsAead secrets (replicate 12 3)
      (pos 100) (pos 200) "child" parent_token refl refl one_token-IsCodec

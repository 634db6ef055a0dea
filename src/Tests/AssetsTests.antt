-- ===== src/Tests/AssetsTests.antt =====
-- Runs of the download, the verification and the preparation of the assets.
use tinyllama_inference_engi.Prelude.{
  ◌≡◌, refl, ◌↔◌, false, List, [], ◌∷◌, if◌then◌else◌, Bytes, Text, codes,
}
use tinyllama_inference_engi.Result.{ok, err, os_error}
use tinyllama_inference_engi.Files.{Files, put, unlink, replace, with_open, exists, partial_path}
use tinyllama_inference_engi.Format.Hex.{to_hex}
use tinyllama_inference_engi.Samples.{sample_hash, sample_sha256, no_files}
use tinyllama_inference_engi.Assets.Digest.{sha256_file}
use tinyllama_inference_engi.Assets.Verify.{FileRecord, verify_file, IsPinned, verify_file_iff}
use tinyllama_inference_engi.Assets.Download.{
  finished, chunk, breaks, Response, opened, delivered, arrived, receive, fetch, save, saved,
  download_file, download_file_outcome, download_file-IsPinned, download_file_others,
}
use tinyllama_inference_engi.Assets.Prepare.{
  ModelManifest, remove_file, selected_files, base_url, AllPinned, prepare_files, prepare,
  prepare-AllPinned,
}

abbrev contents : Bytes
contents = 1 ∷ 2 ∷ 3 ∷ []

abbrev config : Text
config = codes "out/config.json"

abbrev config_record : FileRecord
config_record = record { sha256 = to_hex (sample_sha256 contents); size = 3 }

-- The file arrives in two chunks.
abbrev whole : Response
whole = opened (chunk (1 ∷ 2 ∷ []) (chunk (3 ∷ []) finished))

-- The connection breaks after one chunk.
abbrev broken_off : Response
broken_off = opened (chunk (1 ∷ 2 ∷ []) (breaks (os_error "connection reset")))

stored : Files
stored = put no_files config contents

verify_file_iff_example :
    (verify_file sample_hash (put no_files config contents) config config_record ≡ ok tt)
    ↔ IsPinned sample_hash (put no_files config contents) config config_record
verify_file_iff_example =
    verify_file_iff sample_hash (put no_files config contents) config config_record

download_file_outcome_example :
    download_file sample_hash config config_record broken_off no_files ≡ (
      if exists no_files config
      then (verify_file sample_hash no_files config config_record, no_files)
      else saved sample_hash no_files config config_record (arrived broken_off))
download_file_outcome_example =
    download_file_outcome sample_hash config config_record broken_off no_files

breaks_off :
    saved sample_hash no_files config config_record (arrived broken_off)
    ≡ (err (os_error "connection reset"), unlink (partial_path config) no_files)
unfolding arrived delivered
breaks_off = refl

download_ok : (download_file sample_hash config config_record whole no_files).0 ≡ ok tt
unfolding download_file save fetch receive exists with_open replace unlink put to_hex sample_sha256
download_ok = refl

download_file-IsPinned_example :
    IsPinned sample_hash
      (download_file sample_hash config config_record whole no_files).1
      config
      config_record
download_file-IsPinned_example =
    download_file-IsPinned sample_hash config config_record whole no_files download_ok

download_file_others_example :
    (download_file sample_hash config config_record whole no_files).1 (codes "out/other")
    ≡ no_files (codes "out/other")
download_file_others_example =
    download_file_others sample_hash config config_record whole no_files (codes "out/other") refl
      refl

abbrev manifest : ModelManifest
manifest = record {
  model_id = codes "TinyLlama/TinyLlama-1.1B-Chat-v1.0";
  revision = codes "main";
  files =
      (codes "model.safetensors", config_record)
      ∷ (codes "config.json", config_record)
      ∷ (codes "tokenizer.json", config_record)
      ∷ [];
}

abbrev selected : List (Text × FileRecord)
selected = (codes "config.json", config_record) ∷ (codes "tokenizer.json", config_record) ∷ []

weights_left : selected_files false manifest ≡ ok selected
unfolding selected_files remove_file
weights_left = refl

prepare_ok : (prepare sample_hash (λ url. whole) false (codes "out") manifest no_files).0 ≡ ok tt
unfolding prepare prepare_files selected_files remove_file base_url download_file save fetch receive
    exists with_open replace unlink put to_hex sample_sha256 verify_file sha256_file
prepare_ok = refl

prepare-AllPinned_example :
    AllPinned sample_hash
      (λ url. whole)
      (codes "out")
      (prepare sample_hash (λ url. whole) false (codes "out") manifest no_files).1
      selected
prepare-AllPinned_example =
    prepare-AllPinned sample_hash (λ url. whole) false (codes "out") manifest no_files selected
      weights_left ((refl, refl, tt), (tt, tt)) prepare_ok

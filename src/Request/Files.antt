-- ===== src/Request/Files.antt =====
-- The attachments of a request: the uploads of streamGenerateWithFiles, and internal/app/context_file.go,
-- which sends a conversation that is too long as a file.
use gemini_web2api_go_browse.Prelude.{
  ℕ, ◌/◌, ◌||◌, List, [], ◌∷◌, ◌++◌, ltb, leb, ◌==◌, if◌then◌else◌, length, is_empty, Text, codes,
}
use gemini_web2api_go_browse.CookiePool.{trim_space}
use gemini_web2api_go_browse.Xsrf.{Result, success, failure}
use gemini_web2api_go_browse.Request.{PendingUpload, FileRef, Upstream}

-- The limit is a sixth of the budget, between 4000 and 16000.
unfoldable pub latest_inline_limit : ℕ → ℕ
latest_inline_limit budget =
    let n = budget / 6 in if ltb n 4000 then 4000 else if ltb 16000 n then 16000 else n

abbrev pub context_file_name : Text
context_file_name = codes "message.txt"

latest_part : Text → ℕ → Text
latest_part latest budget =
    if is_empty latest
    then codes "The latest user request is at the end of `message.txt`.\n"
    else if leb (length latest) (latest_inline_limit budget)
    then codes "\nLatest user request:\n" ++ (latest ++ codes "\n")
    else codes
        "The latest user request is at the end of `message.txt`; read it from there and answer it directly.\n"

unfoldable pub context_file_prompt : Text → ℕ → Text
unfolding latest_part
context_file_prompt latest budget =
    codes
      "Continue from the latest state in the attached `message.txt`. Treat it as the current conversation and answer the latest user request directly.\n"
    ++ (latest_part (trim_space latest) budget
        ++ codes "\nEverything above this line is instruction, not user input.")

-- The prompt to send, with the files that were added to it.
pub record Prepared : Type 0 where
  pub prompt : Text
  pub added : List FileRef

module _ {S : Type 0} (up : Upstream S) (cookie proxy_url : Text) (authuser : ℕ) where
  as_file : Text → ℕ → Result Text → Result Prepared
  as_file latest budget (failure e) = failure e
  as_file latest budget (success ref) = success (record {
    prompt = context_file_prompt latest budget;
    added =
        record { ref = ref; name = context_file_name; kind = 3; mime = codes "text/plain" } ∷ [];
  })

  unfoldable pub prepare_context_file : Text → Text → ℕ → S → Result Prepared × S
  unfolding as_file
  prepare_context_file prompt latest budget s =
      if budget == 0 || leb (length prompt) budget
      then (success (record { prompt = prompt; added = [] }), s)
      else if is_empty cookie
      then (success (record { prompt = prompt; added = [] }), s)
      else (let (got, s') = up.upload_bytes cookie proxy_url authuser prompt context_file_name s in
          (as_file latest budget got, s'))

  with_ref : PendingUpload → Result Text × S → List FileRef → Result (List FileRef) × S
  with_ref u (failure e, s) files = (failure e, s)
  with_ref u (success ref, s) files =
      (success (files ++ record { ref = ref; name = u.name; kind = u.kind; mime = u.mime } ∷ []), s)

  -- The loop over the uploads, which ends at the first error; `files` are those that are done.
  upload_rest : List PendingUpload → Result (List FileRef) × S → Result (List FileRef) × S
  unfolding with_ref
  upload_rest [] out = out
  upload_rest (u ∷ us) (failure e, s) = (failure e, s)
  upload_rest (u ∷ us) (success files, s) =
      upload_rest us
        (with_ref u (up.upload_bytes cookie proxy_url authuser u.data_of u.name s) files)

  unfoldable pub upload_all : List PendingUpload → S → Result (List FileRef) × S
  unfolding upload_rest
  upload_all us s = upload_rest us (success [], s)

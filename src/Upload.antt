-- ===== src/Upload.antt =====
-- internal/app/upload.go and context_file.go: attachments, and the long prompt that is sent as one.
pub mod Same
use Prim.Native.Nat.{ℕ, ◌/◌}
use mathlib.Core.Bool.{not, ◌||◌}
use mathlib.Core.List.{List, [], ◌++◌, ◌∷◌}
use mathlib.Core.Option.{none, some}
use gemini_web2api_go.Base.Dict.{lookup}
use gemini_web2api_go.Base.Int.{int_eq}
use gemini_web2api_go.Base.Lists.{length, take}
use gemini_web2api_go.Base.Result.{Result, erred, fine, utf8}
use gemini_web2api_go.Base.Tests.{if◌then◌else◌, leb, ltb, nat_eq, ◌==◌}
use gemini_web2api_go.Base.Text.{Text, codes, has_prefix, is_empty, text_eq, trim_space}
use gemini_web2api_go.Cookie.{Pair}
use gemini_web2api_go.Outside.{
  Outside, Reply, Request, World, broken_off, exchange, no_reply, replied, upload_host, upload_put,
}
use gemini_web2api_go.Tokens.{get_upload_tokens}

-- `pendingUpload`, without the MIME type in `Mime` for anything but the reference.
pub record PendingUpload : Type 0 where
  pub content : Text
  pub file_name : Text
  pub mime : Text
  pub kind : ℕ

-- `fileRef`
pub record FileRef : Type 0 where
  pub ref : Text
  pub ref_name : Text
  pub ref_kind : ℕ
  pub ref_mime : Text

unfoldable pub without_breaks : Text → Text
without_breaks [] = []
without_breaks (c ∷ s) = if c == 13 || c == 10 then without_breaks s else c ∷ without_breaks s

-- `sanitizeUploadName`
unfoldable pub sanitize_upload_name : Text → Text
unfolding without_breaks
sanitize_upload_name name =
    let n = trim_space name in if is_empty n then codes "upload.bin" else without_breaks n

-- The headers that both requests carry.
unfoldable pub base_headers : Text → Text → Text → List Pair
base_headers cookie push_id pctx =
    (codes "Origin", codes "https://gemini.google.com")
    ∷ (codes "Referer", codes "https://gemini.google.com/")
    ∷ (codes "X-Tenant-Id", codes "bard-storage")
    ∷ (codes "Push-ID", push_id)
    ∷ (codes "Accept", codes "*/*")
    ∷ (codes "Sec-Fetch-Site", codes "same-site")
    ∷ (codes "Sec-Fetch-Mode", codes "cors")
    ∷ (codes "Sec-Fetch-Dest", codes "empty")
    ∷ ((if is_empty pctx then [] else (codes "X-Client-Pctx", pctx) ∷ [])
        ++ (if is_empty cookie then [] else (codes "Cookie", cookie) ∷ []))

unfoldable pub start_request : Outside → List Pair → Text → Text → Text → Request
start_request o base proxy_url content name = record {
  endpoint = upload_host;
  headers =
      base
      ++ (codes "Content-Type", codes "application/x-www-form-urlencoded;charset=UTF-8")
        ∷ (codes "X-Goog-Upload-Command", codes "start")
        ∷ (codes "X-Goog-Upload-Protocol", codes "resumable")
        ∷ (codes "X-Goog-Upload-Header-Content-Length", o.decimal (length content))
        ∷ [];
  body = codes "File name: " ++ sanitize_upload_name name;
  proxy_url = proxy_url;
}

unfoldable pub put_request : List Pair → Text → Text → Text → Request
put_request base put_url proxy_url content = record {
  endpoint = upload_put put_url;
  headers =
      base
      ++ (codes "Content-Type", codes "application/x-www-form-urlencoded;charset=utf-8")
        ∷ (codes "X-Goog-Upload-Command", codes "upload, finalize")
        ∷ (codes "X-Goog-Upload-Offset", codes "0")
        ∷ [];
  body = content;
  proxy_url = proxy_url;
}

-- `respHead[k]`; the transport has put the names in lower case.
abbrev header_of : Text → List Pair → Text
header_of k head = elim (lookup k head) [ none ↦ [] | some v ↦ v ]

-- The address that the first answer gives.
unfoldable pub put_url_of : Outside → Reply → Result Text
put_url_of o (no_reply e) = erred (utf8 "上传 start 失败: " ++ e)
put_url_of o (broken_off status cookies got e) = erred (utf8 "上传 start 失败: " ++ e)
put_url_of o (replied status head cookies got) =
    let url = header_of (codes "x-goog-upload-url") head in
    if not (status == 200)
    then erred (utf8 "上传 start 返回 HTTP " ++ (o.decimal status ++ (codes ": " ++ take 160 got)))
    else if is_empty url
    then erred (utf8 "上传 start 没返回 x-goog-upload-url")
    else fine url

-- The reference that the second answer gives.
unfoldable pub ref_of : Outside → Reply → Result Text
ref_of o (no_reply e) = erred (utf8 "上传 finalize 失败: " ++ e)
ref_of o (broken_off status cookies got e) = erred (utf8 "上传 finalize 失败: " ++ e)
ref_of o (replied status head cookies got) =
    let r = trim_space got in
    if not (status == 200)
    then erred (utf8 "上传 finalize 返回 HTTP " ++ (o.decimal status ++ (codes ": " ++ take 160 got)))
    else if not (has_prefix r (codes "/"))
    then erred (utf8 "上传返回的不是引用路径: " ++ take 160 r)
    else fine r

-- The second request, where the first gave an address.
unfoldable pub finalize :
    Outside → List Pair → Text → Text → World × Result Text → World × Result Text
unfolding exchange ref_of
finalize o base proxy_url content (w, erred e) = (w, erred e)
finalize o base proxy_url content (w, fine url) =
    let (w', r) = exchange o w (put_request base url proxy_url content) in (w', ref_of o r)

-- Both requests, where the page gave its tokens.
unfoldable pub upload_with :
    Outside → Text → Text → Text → Text → World × Result (Text × Text) → World × Result Text
unfolding exchange finalize put_url_of
upload_with o cookie proxy_url content name (w, erred e) = (w, erred (utf8 "取上传页面参数失败: " ++ e))
upload_with o cookie proxy_url content name (w, fine (push_id, pctx)) =
    if is_empty push_id
    then (w, erred (utf8 "页面里没有 push_id，无法上传"))
    else let base = base_headers cookie push_id pctx in
      let (w', r) = exchange o w (start_request o base proxy_url content name) in
      finalize o base proxy_url content (w', put_url_of o r)

-- `uploadBytes`
unfoldable pub upload_bytes : Outside → World → Text → Text → Text → Text → World × Result Text
unfolding upload_with
upload_bytes o w cookie proxy_url content name =
    upload_with o cookie proxy_url content name (get_upload_tokens o w cookie proxy_url)

abbrev pub context_file_name : Text
context_file_name = codes "message.txt"

-- `latestInlineLimit`, for a budget above zero.
unfoldable pub latest_inline_limit : ℕ → ℕ
latest_inline_limit budget =
    let n = budget / 6 in
    let n' = if ltb n 4000 then 4000 else n in if ltb 16000 n' then 16000 else n'

-- `contextFilePrompt`
unfoldable pub context_file_prompt : Text → ℕ → Text
unfolding latest_inline_limit
context_file_prompt latest budget =
    let t = trim_space latest in
    let about =
      codes "Continue from the latest state in the attached `"
      ++ (context_file_name
          ++ codes
              "`. Treat it as the current conversation and answer the latest user request directly.\n") in
    let where_it_is =
      if is_empty t
      then codes "The latest user request is at the end of `" ++ (context_file_name ++ codes "`.\n")
      else if leb (length t) (latest_inline_limit budget)
      then codes "\nLatest user request:\n" ++ (t ++ codes "\n")
      else codes "The latest user request is at the end of `"
        ++ (context_file_name ++ codes "`; read it from there and answer it directly.\n") in
    about ++ (where_it_is ++ codes "\nEverything above this line is instruction, not user input.")

-- The prompt with the files to add, where the upload went well.
unfoldable pub as_attachment : Text → ℕ → World × Result Text → World × Result (Text × List FileRef)
as_attachment latest budget (w, erred e) = (w, erred (utf8 "超长对话转附件失败: " ++ e))
as_attachment latest budget (w, fine r) =
    let file : FileRef = record {
      ref = r;
      ref_name = context_file_name;
      ref_kind = 3;
      ref_mime = codes "text/plain";
    } in
    (w, fine (context_file_prompt latest budget, file ∷ []))

-- `prepareContextFile`; a budget that is not positive is 0, and no file is `used=false`.
unfoldable pub prepare_context_file :
    Outside → World → Text → Text → ℕ → Text → Text → World × Result (Text × List FileRef)
prepare_context_file o w prompt latest budget cookie proxy_url =
    if budget == 0 || leb (length prompt) budget
    then (w, fine (prompt, []))
    else if is_empty cookie
    then (w, fine (prompt, []))
    else as_attachment latest budget (upload_bytes o w cookie proxy_url prompt context_file_name)

-- ===== src/FindIoc/Request.antt =====
-- What `serialize_batch` of findioc.rs writes: a datagram of Channel Access frames.
use daqingest.Base.{
  ℕ, ◌%◌, ◌^◌, ◌<◌, ◌≡◌, refl, ap, ◌∙◌, List, [], ◌∷◌, ◌++◌, length, be_bytes, arith,
}
use daqingest.CaProto.Fields.{padded}
use daqingest.CaProto.Header.{HeadInfo}
use daqingest.CaProto.Parser.Head.{head_and}
use daqingest.CaProto.Wire.{zero_padded}
use daqingest.FindIoc.{SearchBatch}
use daqingest.FindIoc.Datagram.{version_frame, search_frame, search_frames, serialize_batch}
use daqingest.FindIoc.Answer.{version_head}

abbrev pub request_head : ℕ → List ℕ → HeadInfo
request_head sid ch = record {
  cmdid = 6;
  payload_size = padded (length ch);
  data_type = 0;
  data_count = 13;
  param1 = 0;
  param2 = sid;
}

-- the searches, as far as there are identifiers and channels
abbrev pub requests : List ℕ → List (List ℕ) → List ℕ
requests (sid ∷ sids) (ch ∷ channels) =
    head_and (request_head sid ch) (zero_padded ch (padded (length ch)) ++ requests sids channels)
requests _ _ = []

-- Every name fits a payload whose length has 16 bits.
abbrev pub AllNames : List (List ℕ) → Type 0
AllNames [] = Unit
AllNames (ch ∷ channels) = (padded (length ch) < 2 ^ 16) × AllNames channels

search_frames-requests :
    (sids : List ℕ) (channels : List (List ℕ))
    → AllNames channels
    → search_frames sids channels ≡ requests sids channels
unfolding search_frames search_frame be_bytes
search_frames-requests [] channels h = refl
search_frames-requests (sid ∷ sids) [] h = refl
search_frames-requests (sid ∷ sids) (ch ∷ channels) (h, hs) =
    let n = padded (length ch) in
    ap
      (λ k.
        head_and (record (request_head sid ch) { payload_size = k })
          (zero_padded ch n ++ search_frames sids channels))
      {x = n % 2 ^ 16} (omega (arith, h))
    ∙ ap (λ rest. head_and (request_head sid ch) (zero_padded ch n ++ rest))
        (search_frames-requests sids channels hs)

-- For channel names whose padded lengths have 16 bits, serialize_batch appends a version frame
-- and for each channel a search frame with its identifier and its name, ended by zeros and
-- padded to 8 bytes.
pub serialize_batch-requests :
    (buf : List ℕ) (batch : SearchBatch)
    → AllNames batch.channels
    → serialize_batch buf batch ≡ buf ++ head_and version_head (requests batch.sids batch.channels)
unfolding serialize_batch be_bytes
serialize_batch-requests buf batch h =
    ap (λ q. buf ++ (version_frame ++ q)) (search_frames-requests batch.sids batch.channels h)

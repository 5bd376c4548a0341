-- ===== src/Capabilities/Registry.antt =====
-- The capabilities of app/core/engine/tool_capability_registry.py, without their texts for people.
use self_managed_agents.Base.{String, Bool, true, false, List, [], ◌∷◌}

pub record ToolCapability : Type 0 where
  pub key : String
  pub label : String
  pub high_risk : Bool
  -- regular expressions
  pub claim_patterns : List String

abbrev pub memory_capability : ToolCapability
memory_capability = record {
  key = "memory";
  label = "Memory";
  high_risk = false;
  claim_patterns = [];
}

abbrev pub escalation_capability : ToolCapability
escalation_capability = record {
  key = "escalation";
  label = "Escalation";
  high_risk = true;
  claim_patterns =
      "\\b(sudah|telah)\\s+(saya\\s+)?(teruskan|eskalasi|laporkan)\\b"
      ∷ "\\b(admin|operator|owner)\\s+(akan|sudah)\\s+(menghubungi|mengecek|membantu)\\b" ∷ [];
}

abbrev pub sandbox_capability : ToolCapability
sandbox_capability = record {
  key = "sandbox";
  label = "Sandbox";
  high_risk = true;
  claim_patterns =
      "\\b(saya\\s+)?(sudah|telah)\\s+(menjalankan|eksekusi|mengeksekusi)\\s+(kode|script|program)\\b"
      ∷ "\\bhasil\\s+(eksekusi|run|menjalankan kode)\\b"
      ∷ "\\b(saya\\s+)?(sudah|telah)\\s+(membaca|proses|memproses)\\s+file\\s+(excel|xlsx|csv|pdf)\\b"
      ∷ [];
}

abbrev pub deploy_capability : ToolCapability
deploy_capability = record {
  key = "deploy";
  label = "Deploy";
  high_risk = true;
  claim_patterns =
      "\\b(sudah|telah)\\s+(saya\\s+)?deploy\\b" ∷ "\\blink\\s+(deploy|preview|public)\\b"
      ∷ "\\b(trycloudflare|vercel\\.app|netlify\\.app)\\b" ∷ [];
}

abbrev pub rag_capability : ToolCapability
rag_capability = record {
  key = "rag";
  label = "Dokumen/RAG";
  high_risk = true;
  claim_patterns =
      "\\bberdasarkan\\s+(dokumen|knowledge base|file yang diupload)\\b"
      ∷ "\\b(saya\\s+)?(sudah|telah)\\s+(cek|membaca|menemukan)\\s+(dokumen|knowledge base)\\b"
      ∷ [];
}

abbrev pub scheduler_capability : ToolCapability
scheduler_capability = record {
  key = "scheduler";
  label = "Scheduler";
  high_risk = true;
  claim_patterns =
      "\\b(pengingat|reminder|jadwal)\\s+(sudah|telah)\\s+(dibuat|disetel|diatur)\\b"
      ∷ "\\b(sudah|telah)\\s+(saya\\s+)?(set|buat|atur)\\s+(reminder|pengingat|jadwal)\\b" ∷ [];
}

abbrev pub whatsapp_media_capability : ToolCapability
whatsapp_media_capability = record {
  key = "whatsapp_media";
  label = "WhatsApp Media";
  high_risk = true;
  claim_patterns =
      "\\b(sudah|telah)\\s+(saya\\s+)?(kirim|mengirim)\\s+(file|dokumen|pdf|gambar|foto)\\b"
      ∷ "\\b(file|dokumen|pdf|gambar|foto)\\s+(sudah|telah)\\s+(saya\\s+)?kirim\\b"
      ∷ "\\[(document_sent|image_sent)\\]" ∷ [];
}

abbrev pub tavily_capability : ToolCapability
tavily_capability = record {
  key = "tavily";
  label = "Web Search";
  high_risk = false;
  claim_patterns = [];
}

abbrev pub google_workspace_capability : ToolCapability
google_workspace_capability = record {
  key = "google_workspace";
  label = "Google Workspace";
  high_risk = true;
  claim_patterns =
      "\\b(sudah|telah)\\s+(saya\\s+)?(buat|membuat|cek|membaca|update|mengubah)\\s+(google|gmail|drive|docs|sheets|slides|calendar|forms)\\b"
      ∷ "\\b(google\\s+(docs|sheets|slides|forms|drive|calendar)|gmail)\\s+(sudah|telah)\\b" ∷ [];
}

abbrev pub mcp_capability : ToolCapability
mcp_capability = record {
  key = "mcp";
  label = "Integrasi Eksternal";
  high_risk = false;
  claim_patterns = [];
}

abbrev pub subagents_capability : ToolCapability
subagents_capability = record {
  key = "subagents";
  label = "Sub-agent";
  high_risk = false;
  claim_patterns = [];
}

abbrev pub builder_capability : ToolCapability
builder_capability = record {
  key = "builder";
  label = "Arthur Builder";
  high_risk = false;
  claim_patterns = [];
}

-- `CAPABILITIES`
abbrev pub all_capabilities : List ToolCapability
all_capabilities =
    memory_capability ∷ escalation_capability ∷ sandbox_capability ∷ deploy_capability
    ∷ rag_capability ∷ scheduler_capability ∷ whatsapp_media_capability ∷ tavily_capability
    ∷ google_workspace_capability ∷ mcp_capability ∷ subagents_capability ∷ builder_capability ∷ []

-- ===== src/Cloudflare.antt =====
-- plugins/cloudflare-dns: the DNS records of the applications at Cloudflare.
pub mod Suffix

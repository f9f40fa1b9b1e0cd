-- ===== src/FeatureStore/Written.antt =====
-- src/enrichment/redis_feature_store.cpp: the lookup of features that were written field by field.
